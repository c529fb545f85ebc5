-- ===== src/Registry.antt =====
-- The runtime state-machine registry: `StateMachineRegistry` of
-- ublox_driver/src/gnss_communication_wrapper/state_machine_registry.cpp.
-- Strings are lists of bytes, the clock reading `steady_clock::now()` is an argument, in
-- nanoseconds, and an operation that throws returns `unknown` or `empty_id` and no registry. The
-- mutex makes each operation one step.
pub mod Events
pub mod Timeouts
pub mod Traces
mod Tests
use gnss_parser.Prelude.{
  ℕ, zero, suc, ◌+◌, ◌*◌, ◌%◌, ◌^◌, Bool, true, false, not, ◌||◌, List, [], ◌∷◌, ◌++◌, Option, none,
  some, ltb, ◌==◌, if◌then◌else◌,
}
use gnss_parser.Prelude.Text.{Bytes, codes, starts_with}
use gnss_parser.Prelude.Map.{Map, lookup, insert}
use gnss_parser.Prelude.Int.{ℤ, pos, negsuc}

pub data State : Type 0 where
  deactive active : State

pub record Definition : Type 0 where
  pub id : Bytes
  pub display_name : Bytes
  pub deactivate_timeout : ℤ  -- milliseconds

pub record Instance : Type 0 where
  pub state : State
  pub active_count : ℕ
  pub last_event_time : ℕ
  pub last_transition_time : ℕ
  pub last_detail : Bytes

-- `StateMachineInstance{}`
abbrev pub fresh : Instance
fresh = record {
  state = deactive;
  active_count = 0;
  last_event_time = 0;
  last_transition_time = 0;
  last_detail = [];
}

pub record Registry : Type 0 where
  pub definitions : Map Definition
  pub instances : Map Instance

-- `std::invalid_argument` is thrown for an empty or an unknown id.
pub data Result {ℓ} (A : Type ℓ) : Type ℓ where
  ok : A → Result A
  empty_id unknown : Result A

abbrev is_empty : Bytes → Bool
is_empty [] = true
is_empty (x ∷ s) = false

unfoldable pub compose_instance_id : Bytes → Bytes → Bytes
compose_instance_id definition_id key =
    if is_empty key then definition_id else definition_id ++ (b':' ∷ key)

abbrev pub or_fresh : Option Instance → Instance
or_fresh none = fresh
or_fresh (some i) = i

-- `instances_[composeInstanceId(...)]`, which creates the instance where it is missing.
unfoldable pub instance_of : Registry → Bytes → Instance
instance_of r cid = or_fresh (lookup cid r.instances)

abbrev pub is_defined : Option Definition → Bool
is_defined none = false
is_defined (some d) = true

abbrev pub same_state : State → State → Bool
same_state deactive deactive = true
same_state active active = true
same_state _ _ = false

-- The instance after `setStateLocked`, and whether its state changed.
unfoldable pub set_state : Instance → State → Bytes → ℕ → Instance × Bool
set_state i new detail now =
    let changed = not (same_state i.state new) in
    (
      record i {
        state = new;
        last_detail = detail;
        last_transition_time = if changed then now else i.last_transition_time;
      },
      changed,
    )

abbrev pub put : Registry → Bytes → Instance → Registry
put r cid i = record r { instances = insert cid i r.instances }

-- Store what `setStateLocked` makes of an instance.
abbrev pub store : Registry → Bytes → Instance × Bool → Registry × Bool
store r cid (i, changed) = (put r cid i, changed)

unfoldable pub report_event : Registry → Bytes → Bytes → Bytes → ℕ → Result (Registry × Bool)
report_event r definition_id key detail now =
    if not (is_defined (lookup definition_id r.definitions))
    then unknown
    else let cid = compose_instance_id definition_id key in
      let i = instance_of r cid in
      let counted = record i {
        active_count = (i.active_count + 1) % 2 ^ 64;
        last_event_time = now;
      } in
      ok (store r cid (set_state counted active detail now))

unfoldable pub set_active : Registry → Bytes → Bytes → Bytes → ℕ → Result (Registry × Bool)
set_active r definition_id key detail now =
    if not (is_defined (lookup definition_id r.definitions))
    then unknown
    else let cid = compose_instance_id definition_id key in
      let i = instance_of r cid in
      ok (store r cid (set_state (record i { last_event_time = now }) active detail now))

unfoldable pub set_deactive : Registry → Bytes → Bytes → Bytes → ℕ → Result (Registry × Bool)
set_deactive r definition_id key detail now =
    if not (is_defined (lookup definition_id r.definitions))
    then unknown
    else let cid = compose_instance_id definition_id key in
      ok (store r cid (set_state (instance_of r cid) deactive detail now))

unfoldable pub register_definition : Registry → Definition → Result Registry
register_definition r d =
    if is_empty d.id
    then empty_id
    else let named = if is_empty d.display_name then record d { display_name = d.id } else d in
      let cid = compose_instance_id d.id [] in
      ok (record r {
        definitions = insert d.id named r.definitions;
        instances = insert cid (instance_of r cid) r.instances;
      })

-- `definition.deactivate_timeout` in nanoseconds where it is positive
unfoldable pub timeout_of : Definition → Option ℕ
timeout_of d = elim d.deactivate_timeout [
  | pos t ↦ if t == 0 then none else some (t * 1000000)
  | negsuc t ↦ none
]

abbrev pub is_active : Instance → Bool
is_active i = same_state i.state active

-- The body of the inner loop of `tick`: the instance at `cid` after the definition `id` with
-- timeout `limit`, and whether it changed. The clock is monotonic: `now - last < limit` is a sum.
unfoldable pub tick_one : Bytes → ℕ → ℕ → Bytes → Instance → Instance × Bool
unfolding set_state
tick_one id limit now cid i =
    if not (starts_with cid id)
    then (i, false)
    else if not (is_active i)
    then (i, false)
    else if ltb now (i.last_event_time + limit)
    then (i, false)
    else set_state i deactive (codes "timeout") now

unfoldable pub tick_instances : Bytes → ℕ → ℕ → Map Instance → Map Instance × Bool
tick_instances id limit now [] = ([], false)
tick_instances id limit now ((cid, i) ∷ m) =
    let (i', c) = tick_one id limit now cid i in
    let (m', rest) = tick_instances id limit now m in ((cid, i') ∷ m', c || rest)

-- The outer loop over the definitions.
unfoldable pub tick_definitions : List (Bytes × Definition) → ℕ → Map Instance → Map Instance × Bool
tick_definitions [] now m = (m, false)
tick_definitions ((k, d) ∷ ds) now m =
    let skipped = tick_definitions ds now m in
    elim (timeout_of d) [
      | none ↦ skipped
      | some limit ↦
          let (m', c) = tick_instances d.id limit now m in
          let (m'', rest) = tick_definitions ds now m' in (m'', rest || c)
    ]

unfoldable pub tick : Registry → ℕ → Registry × Bool
tick r now =
    let (m, changed) = tick_definitions r.definitions now r.instances in
    (record r { instances = m }, changed)
