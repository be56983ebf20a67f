-- ===== src/Tests/Placings.antt =====
-- src/sync/ReplicaService.js: runs.
use canvas_stored.Prelude.{
  ℕ, ◌≡◌, refl, true, false, Option, none, some, [], ◌∷◌, arith, Text, codes, text_eq, text_eq_iff,
  is_some, or_else,
}
use canvas_stored.Lmdb.{Table, text_key, lookup, upsert}
use canvas_stored.Lmdb.Memory.{in_memory, no_rows}
use canvas_stored.Keys.Segments.{split}
use canvas_stored.Replicas.Types.{
  Target, Plan, Replica, Owner, Op, cancelled, Tried, did, failed, failure, Backend, Ingress,
  Service,
}
use canvas_stored.Replicas.Service.{get_op, put_op, new_op, submit, values}
use canvas_stored.Replicas.Outcomes.{Seen, nothing, bytes}
use canvas_stored.Replicas.Place.{Reply, Applied, place_file, other_claims}
use canvas_stored.Replicas.Retire.{Retiring, Releasing, retire_one}
use canvas_stored.Replicas.Apply.{Answers, apply}
use canvas_stored.Replicas.Cleanup.{cleanup}
use canvas_stored.Replicas.Drain.{drain}
use canvas_stored.Replicas.Chains.{IsKeyed, cleanup_ends}
use canvas_stored.Replicas.Submitted.{IfDid, submit-submit}
use canvas_stored.Replicas.Numbers.{IsNumbered, Numbers, submit-Numbers}
use canvas_stored.Replicas.Ordered.{IsPass, drain-InOrder}
use canvas_stored.Replicas.Permitted.{is_permitted, place_file-is_permitted}
use canvas_stored.Replicas.Retired.{removes, retire_one-removes}
use canvas_stored.Replicas.Rechecked.{Looked}
use canvas_stored.Replicas.Completed.{Leaves, apply-Leaves}
use canvas_stored.Replicas.Place
use canvas_stored.Replicas.Stage

abbrev ops : Table text_key Op
ops = in_memory text_key Op

abbrev owners : Table text_key Owner
owners = in_memory text_key Owner

abbrev pins : Table text_key Ingress
pins = in_memory text_key Ingress

abbrev counters : Table text_key ℕ
counters = in_memory text_key ℕ

abbrev S : Type 0
S = Service ops owners pins counters

abbrev empty : S
empty = record {
  ops = no_rows text_key Op;
  owners = no_rows text_key Owner;
  ingress = no_rows text_key Ingress;
  meta = no_rows text_key ℕ;
  stopped = false;
}

abbrev disk : Backend
disk = record { driver = codes "file"; can_write = true; can_delete = true; creates = true }

abbrev disks : Text → Option Backend
disks name = some disk

abbrev content : Option Text
content = some (codes "sha256:00000000000000000000000000000000000000000000000000000000000000aa")

abbrev target : Target
target = record {
  backend = codes "usb";
  key = codes "a.txt";
  is_directory = false;
  on_conflict = none;
  is_mirror = true;
  adopts = false;
}

abbrev plan : Plan
plan = record {
  id = codes "p1";
  owner = codes "doc";
  content_id = content;
  replicas = target ∷ [];
  preserve = [];
  source = none;
  release = [];
  source_cache_key = some (codes "pin");
  ingress_seq = none;
  ingress_source = none;
}

-- A stand-in for the digest of a plan.
abbrev digest : Plan → Text
digest p = p.owner

abbrev other : Plan
other = record plan { owner = codes "another" }

-- An operation whose successor is itself.
abbrev circular : Op
circular = record (new_op plan (codes "h") 1 0) {
  state = cancelled;
  superseded_by = some (codes "p1");
}

abbrev with_op : Op → S
with_op op = put_op ops owners pins counters empty op

with_op-IsKeyed : (op : Op) → IsKeyed ops owners pins counters (with_op op)
unfolding put_op get_op lookup upsert
with_op-IsKeyed op id o h = ground (arith, h, text_eq_iff op.id id)

circular_there : get_op ops owners pins counters (with_op circular) (codes "p1") ≡ some circular
unfolding put_op get_op lookup upsert new_op
circular_there = refl

cleanup_ends_example : is_some (cleanup ops owners pins counters (with_op circular) circular) ≡ true
cleanup_ends_example =
    cleanup_ends ops owners pins counters (with_op circular) (codes "p1") circular
      (with_op-IsKeyed circular) circular_there

empty-IsNumbered : IsNumbered ops owners pins counters empty
unfolding get_op lookup
empty-IsNumbered id op h = cc

submit-Numbers_example :
    IfDid
      (Numbers ops owners pins counters empty (get_op ops owners pins counters empty (codes "p1")))
      (submit ops owners pins counters true disks digest empty plan 5)
submit-Numbers_example =
    submit-Numbers ops owners pins counters true disks digest empty plan 5 empty-IsNumbered

abbrev accepted_op : Op
accepted_op = new_op plan (codes "doc") 1 5

abbrev accepted : S
accepted = record (with_op accepted_op) { meta = counters.put empty.meta (codes "head") 1 }

plan_accepted :
    submit ops owners pins counters true disks digest empty plan 5 ≡ did (accepted_op, accepted)
unfolding submit put_op get_op lookup upsert new_op split
plan_accepted = refl

submit-submit_example :
    (submit ops owners pins counters true (λ name. none) digest accepted plan 9
      ≡ did (accepted_op, accepted))
    × (other.id ≡ plan.id
        → text_eq (digest plan) (digest other) ≡ false
        → submit ops owners pins counters true (λ name. none) digest accepted other 9
          ≡ failed (failure (codes "IDEMPOTENCY_CONFLICT")))
submit-submit_example =
    submit-submit ops owners pins counters true disks digest empty accepted plan other accepted_op 5
      9 true (λ name. none) plan_accepted

-- Answers with which all goes well: the destination is empty before the write.
abbrev went_well : Reply
went_well = record { ok = true; reason = none }

abbrev here : Tried Seen
here = did (bytes (or_else content []))

abbrev placing : Place.Answers
placing = record {
  is_held = false;
  is_held_late = false;
  current = did nothing;
  taken = [];
  found = did nothing;
  written = did went_well;
  verified = here;
  acknowledged = none;
  made = none;
}

abbrev staging : Stage.Answers
staging = record {
  has_stage = false;
  stage_id = [];
  copied_id = or_else content [];
  has_backend = true;
  is_online = true;
  has_file = true;
  is_readable = true;
  is_unchanged = true;
}

abbrev retiring : Retiring
retiring = record { is_held = false; found = here; cleared = none; removed = did went_well }

abbrev releasing : Releasing
releasing = record { is_held = false; current = did none; released = did went_well }

abbrev answers : Answers
answers = record {
  is_held = false;
  staging = staging;
  placing = λ i. placing;
  retiring = λ i. retiring;
  checking = λ i. here;
  releasing = λ i. releasing;
}

-- Two operations of one owner, the later one under the smaller id.
abbrev two_accepted : S
two_accepted =
    put_op ops owners pins counters accepted (record accepted_op { id = codes "p0"; seq = 2 })

drain-InOrder_example :
    IsPass ops owners pins counters true disks
      (values (ops.range two_accepted.ops))
      (drain ops owners pins counters true disks two_accepted (λ id. here) (λ id. answers) 7).1
unfolding put_op
drain-InOrder_example =
    drain-InOrder ops owners pins counters true disks two_accepted (λ id. here) (λ id. answers) 7

apply_works :
    (apply ops owners pins counters true disks accepted accepted_op answers 7).error ≡ none
unfolding apply new_op lookup
apply_works = refl

apply-Leaves_example :
    let out = apply ops owners pins counters true disks accepted accepted_op answers 7 in
    Leaves ops owners pins counters true disks out.service out.op
    × Looked answers.checking out.op out.calls
apply-Leaves_example =
    apply-Leaves ops owners pins counters true disks accepted accepted_op answers 7 apply_works

abbrev outcome : Replica
outcome = record {
  backend = codes "usb";
  key = codes "a.txt";
  is_directory = false;
  on_conflict = none;
  is_mirror = true;
  adopts = false;
  requested_key = some (codes "a.txt");
  content_id = content;
  is_verified = false;
  managed = true;
  expected = none;
  replaces = none;
}

place_file-is_permitted_example :
    is_permitted
      (disks (codes "usb"))
      target
      outcome
      nothing
      content
      (other_claims ops owners pins counters true disks accepted accepted_op
        (codes "usb")
        (codes "a.txt"))
      (place_file ops owners pins counters true disks accepted accepted_op target outcome placing
        (did nothing)).calls
    ≡ true
unfolding new_op
place_file-is_permitted_example =
    place_file-is_permitted ops owners pins counters true disks accepted accepted_op target outcome
      placing nothing

abbrev old : Replica
old = record outcome { key = codes "b.txt" }

retire_one-removes_example :
    removes ops owners pins counters true disks accepted_op old
      (other_claims ops owners pins counters true disks accepted accepted_op
        (codes "usb")
        (codes "b.txt"))
      here
      (retire_one ops owners pins counters true disks accepted accepted_op old retiring).calls
    ≡ true
retire_one-removes_example =
    retire_one-removes ops owners pins counters true disks accepted accepted_op old retiring
