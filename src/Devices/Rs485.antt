-- ===== src/Devices/Rs485.antt =====
-- `rs485_interface` of interface/stm32_zst/rs485.hpp: an UART whose two pins switch the line to
-- transmission.
mod Tests
use libprotoserial.Prelude.{
  ◌⊎◌, sym, ℕ, ◌≡◌, refl, ◌∙◌, Bool, true, false, if◌then◌else◌, Bool-cases, inl, inr,
}
use libprotoserial.Bytes.{Bytes}
use libprotoserial.Interface.Fragment.{InterfaceId}
use libprotoserial.Devices.Uart.{Uart, next_receive}
use libprotoserial.Devices.Uart

-- Whether `_de_pin` and `_nre_pin` are set.
pub record Rs485 : Type 0 where
  pub uart : Uart
  pub de_pin : Bool
  pub nre_pin : Bool

-- The constructor: it swaps the last two arguments of that of the parent.
pub create : InterfaceId → ℕ → ℕ → ℕ → ℕ → ℕ → ℕ → Rs485
create iid address broadcast max_queue_size max_fragment_size buffer_size now = record {
  uart = Uart.create iid address broadcast max_queue_size buffer_size max_fragment_size now;
  de_pin = false;
  nre_pin = false;
}

pub isr_tx_done : Rs485 → Rs485
isr_tx_done r = record r { uart = Uart.isr_tx_done r.uart; de_pin = false; nre_pin = false }

-- Where `do_transmit` is: it is not running, or it is to set the first or the second pin.
pub data Phase : Type 0 where
  idle : Phase
  before_nre : Phase
  before_de : Phase

-- The interface with what runs on it.
pub record Running : Type 0 where
  pub device : Rs485
  pub phase : Phase

-- The call of the parent's `do_transmit`; only where that begins a transmission, the pins follow.
pub begin_transmit : Bytes → Rs485 → Running
begin_transmit buff r =
    let (began, u) = Uart.do_transmit buff r.uart in
    record { device = record r { uart = u }; phase = if began then before_nre else idle }

-- The two calls of `set` that follow.
pub set_nre : Rs485 → Rs485
set_nre r = record r { nre_pin = true }

pub set_de : Rs485 → Rs485
set_de r = record r { de_pin = true }

-- The parts of `do_transmit` one by one, and the interrupts, which come at any time.
pub data Step : Running → Running → Type 0 where
  transmit_called :
      (buff : Bytes) {r : Rs485}
      → Step (record { device = r; phase = idle }) (begin_transmit buff r)
  nre_set :
      {r : Rs485}
      → Step
          (record { device = r; phase = before_nre })
          (record { device = set_nre r; phase = before_de })
  de_set :
      {r : Rs485}
      → Step (record { device = r; phase = before_de }) (record { device = set_de r; phase = idle })
  byte_received :
      (b now : ℕ) {r : Running}
      → Step r (record r {
        device = record (r.device) {
          uart = Uart.isr_rx_done now (Uart.hardware_write b r.device.uart);
        };
      })
  transmit_done : {r : Running} → Step r (record r { device = isr_tx_done r.device })

pub data Reachable (start : Running) : Running → Type 0 where
  here : Reachable start start
  after : {r s : Running} → Reachable start r → Step r s → Reachable start s

-- The pins that `do_transmit` has set already.
abbrev pub ArePinsSet : Phase → Rs485 → Type 0
ArePinsSet idle r = (r.nre_pin ≡ true) × (r.de_pin ≡ true)
ArePinsSet before_nre r = Unit {0}
ArePinsSet before_de r = r.nre_pin ≡ true

-- While the interface transmits, the pins are set but for those that `do_transmit` is about to set.
pub record IsDriven (r : Running) : Type 0 where
  pub driven : (r.device.uart.is_transmitting ≡ false) ⊎ ArePinsSet r.phase r.device

begin_transmit-IsDriven :
    (buff : Bytes) (r : Rs485)
    → IsDriven (record { device = r; phase = idle })
    → IsDriven (begin_transmit buff r)
unfolding begin_transmit Uart.do_transmit
begin_transmit-IsDriven buff r v = elim (Bool-cases r.uart.is_transmitting) [
  | inl busy ↦ elim v.driven [
    | inl free ↦ cc (busy, free)
    | inr pins ↦ rw busy (record { driven = inr pins })
  ]
  | inr free ↦ rw free (record { driven = inr tt })
]

Step-IsDriven : {r s : Running} → Step r s → IsDriven r → IsDriven s
unfolding set_nre set_de isr_tx_done Uart.isr_tx_done Uart.isr_rx_done Uart.hardware_write
    next_receive
Step-IsDriven (transmit_called buff {r}) v = begin_transmit-IsDriven buff r v
Step-IsDriven nre_set v = elim v.driven [
  | inl free ↦ record { driven = inl free }
  | inr pins ↦ record { driven = inr refl }
]
Step-IsDriven de_set v = elim v.driven [
  | inl free ↦ record { driven = inl free }
  | inr nre ↦ record { driven = inr (nre, refl) }
]
Step-IsDriven (byte_received b now {r}) v = record { driven = kept r.phase v.driven }
  where
    kept :
        (p : Phase)
        → (r.device.uart.is_transmitting ≡ false) ⊎ ArePinsSet p r.device
        → (r.device.uart.is_transmitting ≡ false)
          ⊎ ArePinsSet p (record (r.device) {
            uart = Uart.isr_rx_done now (Uart.hardware_write b r.device.uart);
          })
    kept idle h = h
    kept before_nre h = h
    kept before_de h = h
Step-IsDriven transmit_done v = record { driven = inl refl }

-- The interface that was constructed.
abbrev pub started : InterfaceId → ℕ → ℕ → ℕ → ℕ → ℕ → ℕ → Running
started iid address broadcast max_queue_size max_fragment_size buffer_size now = record {
  device = create iid address broadcast max_queue_size max_fragment_size buffer_size now;
  phase = idle;
}

-- From the constructor on, whatever bytes come in and transmissions begin and end, and also where
-- the interrupts come between the parts of `do_transmit`: while the interface transmits, both pins
-- are set where `do_transmit` does not run, and the first one where it is to set the second.
pub Reachable-IsDriven :
    (iid : InterfaceId) (address broadcast max_queue_size max_fragment_size buffer_size now : ℕ)
    {r : Running}
    → Reachable (started iid address broadcast max_queue_size max_fragment_size buffer_size now) r
    → IsDriven r
unfolding create Uart.create next_receive
Reachable-IsDriven iid address broadcast max_queue_size max_fragment_size buffer_size now here =
    record { driven = inl refl }
Reachable-IsDriven iid address broadcast max_queue_size max_fragment_size buffer_size now
      (after h s) =
    Step-IsDriven s
      (Reachable-IsDriven iid address broadcast max_queue_size max_fragment_size buffer_size now h)
