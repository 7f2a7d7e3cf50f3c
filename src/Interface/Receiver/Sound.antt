-- ===== src/Interface/Receiver/Sound.antt =====
-- A fragment that `do_receive` of interface/buffered.hpp gives is one that was in its buffer.
use libprotoserial.Prelude.{
  ℕ, ◌^◌, ◌<◌, ◌≡◌, ◌∙◌, sym, Option, none, some, Result, ok, err, ap, subst,
}
use libprotoserial.Interface.Fragment.{Fragment, InterfaceId}
use libprotoserial.Interface.Footer.{HashAlgorithm}
use libprotoserial.Interface.Ring.{rx_buffer_latest}
use libprotoserial.Interface.Receiver.{Receiver, max_data_size, do_receive}
use libprotoserial.Interface.Receiver.Framed.{IsFramed, AllFramed}
use libprotoserial.Interface.Receiver.Ready.{IsReady, do_receive-AllFramed}

-- The two results of a call that gives one.
abbrev given : ℕ → Result (Option (Receiver × Option Fragment × ℕ)) → ℕ × Option Fragment
given k (ok (some (s, f, _))) = (s.read, f)
given k (ok none) = (k, none)
given k (err _) = (k, none)

module _ (alg : HashAlgorithm) (iid : InterfaceId) (id now : ℕ) where
  -- Whatever is in a buffer of less than 2 ^ 31 bytes, with positions that lie in it: a fragment
  -- that the call gives stands in the buffer. Behind a preamble that is not at the latest byte
  -- there are a valid header, as many bytes as it says and a footer with the checksum of both,
  -- all of them loaded; the fragment has the addresses of this header and these bytes; and the
  -- read position is at the last byte of the footer.
  pub do_receive-IsFramed :
      {n : ℕ} (s s' : Receiver) (f : Fragment) (pending : ℕ)
      → IsReady n s
      → n < 2 ^ 31
      → do_receive alg iid id now s ≡ ok (some (s', some f, pending))
      → IsFramed alg iid id now s.rx.rx_buffer
          (max_data_size alg s)
          (rx_buffer_latest s.rx)
          s'.read
          f
  do_receive-IsFramed s s' f pending v small e =
      let (t, g, k, e', _, _, framed) = do_receive-AllFramed alg iid id now s v small in
      subst
        (λ (r : ℕ × Option Fragment).
          AllFramed alg iid id now s.rx.rx_buffer (max_data_size alg s) (rx_buffer_latest s.rx) r.0
            r.1)
        (ap (given 0) (sym e' ∙ e)) framed
