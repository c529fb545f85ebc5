-- ===== src/Registry/Events.antt =====
-- What the event operations of the registry do to the instances.
use gnss_parser.Prelude.{
  ℕ, ◌+◌, ◌%◌, ◌^◌, Bool, not, some, ◌≡◌, refl, ap, if◌then◌else◌, Bool-cases, inl, inr, false, [],
}
use gnss_parser.Prelude.Text.{Bytes, bytes_eq_iff, bytes_eq}
use gnss_parser.Prelude.Map.{Map, lookup, insert, lookup-insert}
use gnss_parser.Registry.{
  State, active, deactive, Definition, Instance, Registry, ok, compose_instance_id, instance_of,
  is_active, set_state, same_state, put, report_event, set_active, set_deactive,
  register_definition, is_empty, or_fresh,
}

-- `r'` is `r` with the instance `cid` set to `i`.
pub record IsUpdate (r r' : Registry) (cid : Bytes) (i : Instance) : Type 0 where
  pub instances :
      (j : Bytes)
      → lookup j r'.instances ≡ (if bytes_eq cid j then some i else lookup j r.instances)
  pub definitions : r'.definitions ≡ r.definitions

put-IsUpdate :
    (r : Registry) (cid : Bytes) (i : Instance)
    → IsUpdate r (record r { instances = insert cid i r.instances }) cid i
put-IsUpdate r cid i = record {
  instances = λ j. lookup-insert cid j i r.instances;
  definitions = refl;
}

flip_state : (s : State) → not (same_state s deactive) ≡ same_state s active
flip_state deactive = refl
flip_state active = refl

abbrev pub transition_at : Instance → ℕ → Bool → ℕ
transition_at i now changed = if changed then now else i.last_transition_time

-- The instance after an event, and after it was set inactive.
abbrev pub reported : Instance → Bytes → ℕ → Instance
reported i detail now = record {
  state = active;
  active_count = (i.active_count + 1) % 2 ^ 64;
  last_event_time = now;
  last_transition_time = transition_at i now (not (is_active i));
  last_detail = detail;
}

abbrev pub rested : Instance → Bytes → ℕ → Instance
rested i detail now = record i {
  state = deactive;
  last_transition_time = transition_at i now (is_active i);
  last_detail = detail;
}

-- The instance after it was set active: as an event, but uncounted.
abbrev pub activated : Instance → Bytes → ℕ → Instance
activated i detail now = record (reported i detail now) { active_count = i.active_count }

module _ (r : Registry) (id key detail : Bytes) (now : ℕ) where
  abbrev cid : Bytes
  cid = compose_instance_id id key

  abbrev before : Instance
  before = instance_of r cid

  -- `reportEvent` of a known definition makes the instance active, counts the event in 64 bits,
  -- records its time and detail, changes nothing else, and reports a change exactly if the instance
  -- was not active; the time of the last transition moves only then.
  report_event_lem :
      {d : Definition}
      → lookup id r.definitions ≡ some d
      → (r' : Registry) × (report_event r id key detail now ≡ ok (r', not (is_active before)))
        × IsUpdate r r' cid (reported before detail now)
  unfolding report_event set_state instance_of
  report_event_lem known = (put r cid _, rw known, put-IsUpdate r cid _)

  -- `setActive` of a known definition does to the instance what an event does, but counts none; a
  -- change is reported exactly if it was not active.
  set_active_lem :
      {d : Definition}
      → lookup id r.definitions ≡ some d
      → (r' : Registry) × (set_active r id key detail now ≡ ok (r', not (is_active before)))
        × IsUpdate r r' cid (activated before detail now)
  unfolding set_active set_state instance_of
  set_active_lem known = (put r cid _, rw known, put-IsUpdate r cid _)

  -- `setDeactive` of a known definition makes the instance inactive and records the detail; it
  -- counts no event and leaves the event time; a change is reported exactly if it was active.
  set_deactive_lem :
      {d : Definition}
      → lookup id r.definitions ≡ some d
      → (r' : Registry) × (set_deactive r id key detail now ≡ ok (r', is_active before))
        × IsUpdate r r' cid (rested before detail now)
  unfolding set_deactive set_state instance_of
  set_deactive_lem known =
      (put r cid _, rw known (ap (λ c. ok (put r cid (stopped c), c)) flip), put-IsUpdate r cid _)
    where
      stopped : Bool → Instance
      stopped c = record before {
        state = deactive;
        last_transition_time = transition_at before now c;
        last_detail = detail;
      }

      flip : not (same_state before.state deactive) ≡ is_active before
      flip = flip_state before.state

abbrev pub named : Definition → Definition
named d = if is_empty d.display_name then record d { display_name = d.id } else d

-- An instance that is looked up and put back.
instance_same :
    (k j : Bytes) (m : Map Instance)
    → or_fresh (lookup j (insert k (or_fresh (lookup k m)) m)) ≡ or_fresh (lookup j m)
instance_same k j m = elim (Bool-cases (bytes_eq k j)) [
  | inl e ↦
      rw (lookup-insert k j (or_fresh (lookup k m)) m, e)
        (ap (λ i. or_fresh (lookup i m)) ((bytes_eq_iff k j).0 e))
  | inr e ↦ rw (lookup-insert k j (or_fresh (lookup k m)) m, e) refl
]

-- `registerDefinition` of a definition with an id stores it under the id, with the id for an empty
-- name, keeps the other definitions, and changes no instance: where it makes one, it is fresh.
register_definition_lem :
    (r : Registry) (d : Definition)
    → is_empty d.id ≡ false
    → (r' : Registry) × (register_definition r d ≡ ok r')
      × ((j : Bytes)
          → lookup j r'.definitions
            ≡ (if bytes_eq d.id j then some (named d) else lookup j r.definitions))
      × ((j : Bytes) → instance_of r' j ≡ instance_of r j)
unfolding register_definition instance_of compose_instance_id
register_definition_lem r d e =
    let cid = compose_instance_id d.id [] in
    (
      record r {
        definitions = insert d.id (named d) r.definitions;
        instances = insert cid (instance_of r cid) r.instances;
      },
      rw e refl,
      λ j. lookup-insert d.id j (named d) r.definitions,
      λ j. instance_same cid j r.instances,
    )
