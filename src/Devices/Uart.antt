-- ===== src/Devices/Uart.antt =====
-- `uart_interface` of interface/stm32/uart.hpp and of interface/stm32_zst/uart.hpp: the hardware
-- writes a received byte to the position that was handed out, and interrupts; it interrupts again
-- when a transmission is done.
pub mod Interrupts
use libprotoserial.Prelude.{ℕ, List, Bool, true, false, not, ◌&&◌, ltb, if◌then◌else◌, set}
use libprotoserial.Bytes.{Bytes, init}
use libprotoserial.Interface.Fragment.{InterfaceId}
use libprotoserial.Interface.Ring.{RxBuffer, rx_buffer_future_write}
use libprotoserial.Devices.{Device, with_rx}
use libprotoserial.Devices

pub record Uart : Type 0 where
  pub device : Device
  pub tx_buffer : Bytes
  pub is_transmitting : Bool
  -- The time of the last interrupt, in stm32_zst/uart.hpp.
  pub last_rx : ℕ

-- `next_receive`: the hardware is given the position of the next byte.
unfoldable pub next_receive : ℕ → Uart → Uart
next_receive now u = record u {
  device = record (u.device) {
    parser = with_rx (rx_buffer_future_write u.device.parser.rx).1 u.device.parser;
  };
  last_rx = now;
}

unfoldable pub isr_rx_done : ℕ → Uart → Uart
unfolding next_receive
isr_rx_done now u = next_receive now u

-- The hardware's part of a reception, in front of its interrupt.
unfoldable pub hardware_write : ℕ → Uart → Uart
hardware_write b u =
    let r = u.device.parser.rx in
    record u {
      device = record (u.device) {
        parser = with_rx (record r { rx_buffer = set r.rx_buffer r.write_it b }) u.device.parser;
      };
    }

unfoldable pub isr_tx_done : Uart → Uart
isr_tx_done u = record u { is_transmitting = false }

-- The constructor, after that of the base class.
unfoldable pub create : InterfaceId → ℕ → ℕ → ℕ → ℕ → ℕ → ℕ → Uart
unfolding next_receive
create iid address broadcast max_queue_size max_fragment_size buffer_size now =
    next_receive now (record {
      device = Devices.create iid address broadcast max_queue_size buffer_size max_fragment_size;
      tx_buffer = init;
      is_transmitting = false;
      last_rx = 0;
    })

-- `can_transmit` of the first class, and of the second, which waits for the clock to go on.
pub can_transmit : Uart → Bool
can_transmit u = not u.is_transmitting

pub can_transmit_at : ℕ → Uart → Bool
can_transmit_at now u = not u.is_transmitting && ltb u.last_rx now

-- `do_transmit`: its answer, and the state in which the hardware transmits `tx_buffer`.
unfoldable pub do_transmit : Bytes → Uart → Bool × Uart
do_transmit buff u =
    if u.is_transmitting
    then (false, u)
    else (true, record u { is_transmitting = true; tx_buffer = buff })
