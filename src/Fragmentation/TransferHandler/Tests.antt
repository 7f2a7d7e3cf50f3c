-- ===== src/Fragmentation/TransferHandler/Tests.antt =====
-- Identifiers, transfers and fragments of fragmentation/ on a transfer of five bytes.
use libprotoserial.Prelude.{
  refl, List, ◌%◌, ◌≡◌, ◌≢◌, ◌⊎◌, [], ◌∷◌, none, ok, err, out_of_range, arith,
}
use libprotoserial.Bytes.Layout.{laid_out}
use libprotoserial.Interface.Fragment.{InterfaceId, FragmentMetadata, uart, same_interface}
use libprotoserial.Fragmentation.IdFactory.{
  IdFactory, issue, of_interface, new_id, increment_id, issue_distinct,
}
use libprotoserial.Fragmentation.Transfer.{Transfer, TransferMetadata}
use libprotoserial.Fragmentation.TransferHandler.{TransferHandler, of_transfer, get_fragment}
use libprotoserial.Fragmentation.TransferHandler.Sizes.{total_size, total_size_lem}
use libprotoserial.Fragmentation.TransferHandler.Status.{sending, get_fragment_throws}

abbrev iid : InterfaceId
iid = record { identifier = uart; inst = 0 }

abbrev other : InterfaceId
other = record { identifier = uart; inst = 1 }

abbrev factory : IdFactory
factory = (iid, 255) ∷ (other, 3) ∷ []

-- Three identifiers for the first interface, which cross the limit of a byte, and one for the
-- other.
abbrev asking : List InterfaceId
asking = iid ∷ other ∷ iid ∷ iid ∷ []

issued_lem : of_interface iid (issue asking factory) ≡ 257 ∷ 258 ∷ 259 ∷ []
unfolding of_interface new_id same_interface increment_id
issued_lem = refl

issue_distinct_example : (257 % 256 ≢ 0) × (257 % 256 ≢ 259 % 256)
unfolding of_interface new_id same_interface increment_id
issue_distinct_example = issue_distinct iid asking factory 0 2 refl refl (omega arith) (omega arith)

abbrev fragment_meta : FragmentMetadata
fragment_meta = record {
  object_id = 1;
  timestamp_creation = 0;
  interface_id = iid;
  source = 1;
  destination = 2;
}

abbrev transfer_meta : TransferMetadata
transfer_meta = record { fragment = fragment_meta; id = 7; prev_id = 0 }

-- Five bytes in fragments of two.
abbrev transfer : Transfer
transfer = record { meta = transfer_meta; payload = laid_out 0 (1 ∷ 2 ∷ 3 ∷ 4 ∷ 5 ∷ []) 0 }

abbrev handler : TransferHandler
handler = of_transfer transfer 2 0

total_size_lem_example : total_size handler.fragments_total handler ≡ 5
total_size_lem_example = total_size_lem transfer 2 0 (omega arith) (omega arith) (omega arith)

get_fragment_throws_example :
    (get_fragment 1 0 0 4 handler ≡ ok (none, handler))
    ⊎ (get_fragment 1 0 0 4 handler ≡ err out_of_range)
get_fragment_throws_example = get_fragment_throws handler 1 0 0 4 (sending transfer 2 0)
