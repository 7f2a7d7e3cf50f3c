-- ===== src/Fragmentation/Bypass.antt =====
-- `bypass_fragmentation_handler` of fragmentation/bypass_handler.hpp: each transfer is one
-- fragment.
use libprotoserial.Prelude.{
  ℕ, ◌+◌, ◌%◌, ◌^◌, ◌≤◌, ◌<◌, ◌≡◌, ◌⊎◌, inl, inr, refl, List, Bool-cases, Result, ok, ◌>>=◌, ltb,
  if◌then◌else◌, length, replicate, sym, arith,
}
use libprotoserial.Bytes.{Bytes, size, sized, window}
use libprotoserial.Bytes.Memory.{write_range}
use libprotoserial.Bytes.Layout.{
  Represents, laid_out, sized_lem, write_range-laid_out, length-zeros,
}
use libprotoserial.Bytes.Spec.{window-Represents, size-Represents, laid_out-Represents}
use libprotoserial.Interface.Fragment.{Fragment}
use libprotoserial.Fragmentation.IdFactory.{IdFactory, new_id}
use libprotoserial.Fragmentation.Transfer.{Transfer}

pub data Outcome : Type 0 where
  dropped : ℕ → Outcome
  transmitted : Fragment → Outcome

-- `do_receive`, with the identifier of the new object: the transfer that is passed on.
unfoldable pub do_receive : Fragment → ℕ → IdFactory → Transfer × IdFactory
do_receive f object_id ids =
    let (id, ids') = new_id f.meta.interface_id ids in
    (
      record {
        meta = record {
          fragment = record (f.meta) { object_id = object_id };
          id = id % 256;
          prev_id = 0;
        };
        payload = f.payload;
      },
      ids',
    )

-- `do_transmit`, with the limit of the interface, the two parts of the prealloc size, and the
-- identifier of the new object.
pub do_transmit : Transfer → ℕ → ℕ → ℕ → ℕ → Result Outcome
do_transmit t max_data_size front back object_id =
    if ltb max_data_size (size t.payload) then ok (dropped t.meta.fragment.object_id) else (do
      xs ← window t.payload
      let b = sized front (size t.payload) back
      base ← write_range b.base b.offset xs
      ok (
          transmitted (record {
            meta = record (t.meta.fragment) { object_id = object_id };
            payload = record b { base = base };
          })))

-- A transfer that is too long is dropped, and any other is sent as a fragment with its bytes.
pub do_transmit_lem :
    (t : Transfer) (max_data_size front back object_id : ℕ) {xs : List ℕ}
    → Represents t.payload xs
    → front + length xs + back < 2 ^ 31
    → ((max_data_size < length xs)
        × (do_transmit t max_data_size front back object_id
            ≡ ok (dropped t.meta.fragment.object_id)))
      ⊎ ((length xs ≤ max_data_size)
          × (b : Bytes) × (do_transmit t max_data_size front back object_id
              ≡ ok (
                  transmitted (record {
                    meta = record (t.meta.fragment) { object_id = object_id };
                    payload = b;
                  })))
          × Represents b xs)
unfolding do_transmit
do_transmit_lem t max front back object_id {xs} r small =
    let n = size-Represents r in
    elim (Bool-cases (ltb max (size t.payload))) [
      | inl long ↦ inl (ground (arith, n), rw long refl)
      | inr short ↦ inr (
        ground (arith, n),
        laid_out front xs back,
        rw (short, window-Represents r, n, zeroed, written, length-zeros (length xs)) refl,
        laid_out-Represents front xs back small,
      )
    ]
  where
    zeros : List ℕ
    zeros = replicate {A = ℕ} (length xs) 0

    zeroed : sized front (length xs) back ≡ laid_out front zeros back
    zeroed = sized_lem front (length xs) back (omega arith)

    written :
        write_range (laid_out front zeros back).base front xs ≡ ok (laid_out front xs back).base
    written = write_range-laid_out front zeros xs back (sym (length-zeros (length xs)))
