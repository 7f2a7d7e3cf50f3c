-- ===== src/Devices/Rs485/Tests.antt =====
-- The pins of interface/stm32_zst/rs485.hpp during a transmission.
use libprotoserial.Prelude.{[], ◌∷◌, ◌≡◌, refl, subst}
use libprotoserial.Bytes.{Bytes}
use libprotoserial.Bytes.Layout.{laid_out}
use libprotoserial.Interface.Fragment.{InterfaceId, uart}
use libprotoserial.Devices.Uart.{next_receive}
use libprotoserial.Devices.Uart
use libprotoserial.Devices.Rs485.{
  Rs485, create, begin_transmit, IsDriven, Reachable-IsDriven, Reachable, here, after, Step,
  started, set_de, set_nre, idle, before_nre, transmit_called, nre_set, de_set,
}

abbrev serial : InterfaceId
serial = record { identifier = uart; inst = 0 }

abbrev buffer : Bytes
buffer = laid_out 0 (7 ∷ 8 ∷ []) 0

-- An interface that transmits, and whose `do_transmit` has come to its end.
abbrev line : Rs485
line = create serial 2 255 4 20 32 1

abbrev begun : Rs485
begun = record line { uart = (Uart.do_transmit buffer line.uart).1 }

begin_transmit-line : begin_transmit buffer line ≡ record { device = begun; phase = before_nre }
unfolding begin_transmit create Uart.do_transmit Uart.create next_receive
begin_transmit-line = refl

line-Reachable :
    Reachable
      (started serial 2 255 4 20 32 1)
      (record { device = set_de (set_nre begun); phase = idle })
line-Reachable =
    after
      (after
        (after here (
          subst (λ k. Step (record { device = line; phase = idle }) k) begin_transmit-line
            (transmit_called buffer)))
        nre_set)
      de_set

Reachable-IsDriven_example : IsDriven (record { device = set_de (set_nre begun); phase = idle })
Reachable-IsDriven_example = Reachable-IsDriven serial 2 255 4 20 32 1 line-Reachable
