-- ===== src/Registry/Traces.antt =====
-- Sequences of calls on a registry: the event counter of an instance.
use mathlib.Core.Option
use gnss_parser.Prelude.{
  ℕ, ◌+◌, ◌%◌, ◌^◌, ◌<◌, Bool, ◌&&◌, List, [], ◌∷◌, Option, none, some, ◌≡◌, refl, ap, ◌∙◌, arith,
  if◌then◌else◌, Option-cases, Bool-cases, inl, inr,
}
use gnss_parser.Prelude.Text.{Bytes, bytes_eq, bytes_eq_iff}
use gnss_parser.Prelude.Map.{lookup, insert, lookup-insert}
use gnss_parser.Registry.{
  Definition, Instance, Registry, Result, ok, unknown, empty_id, compose_instance_id, instance_of,
  is_defined, is_empty, or_fresh, put, set_state, report_event, set_active, set_deactive,
  register_definition, tick,
}
use gnss_parser.Registry.Timeouts.{after_tick, tick_lem, lookup-after_tick}

pub data Call : Type 0 where
  report activate deactivate : Bytes → Bytes → Bytes → ℕ → Call
  define : Definition → Call
  clock : ℕ → Call

-- A call that throws leaves the registry as it was.
abbrev settle : Registry → Result (Registry × Bool) → Registry
settle r (ok (r', changed)) = r'
settle r empty_id = r
settle r unknown = r

abbrev settled : Registry → Result Registry → Registry
settled r (ok r') = r'
settled r empty_id = r
settled r unknown = r

abbrev pub after_call : Registry → Call → Registry
after_call r (report id key detail now) = settle r (report_event r id key detail now)
after_call r (activate id key detail now) = settle r (set_active r id key detail now)
after_call r (deactivate id key detail now) = settle r (set_deactive r id key detail now)
after_call r (define d) = settled r (register_definition r d)
after_call r (clock now) = (tick r now).0

abbrev pub after_calls : Registry → List Call → Registry
after_calls r [] = r
after_calls r (c ∷ cs) = after_calls (after_call r c) cs

-- 1 for a reported event of a known definition that is composed to the instance `cid`.
abbrev pub counted : Bytes → Registry → Call → ℕ
counted cid r (report id key detail now) =
    if is_defined (lookup id r.definitions) && bytes_eq (compose_instance_id id key) cid
    then 1
    else 0
counted cid r _ = 0

abbrev pub counted_in : Bytes → Registry → List Call → ℕ
counted_in cid r [] = 0
counted_in cid r (c ∷ cs) = counted cid r c + counted_in cid (after_call r c) cs

abbrev pub events : Bytes → Registry → ℕ
events cid r = (instance_of r cid).active_count

events-put :
    (r : Registry) (k cid : Bytes) (i : Instance)
    → events cid (put r k i) ≡ (if bytes_eq k cid then i.active_count else events cid r)
unfolding instance_of
events-put r k cid i = ground (arith, lookup-insert k cid i r.instances)

-- A stored instance whose counter went up by `d`.
stored_events :
    (r : Registry) (k cid : Bytes) (i : Instance) (d : ℕ)
    → events cid r < 2 ^ 64
    → i.active_count ≡ (events k r + d) % 2 ^ 64
    → events cid (put r k i) ≡ (events cid r + (if bytes_eq k cid then d else 0)) % 2 ^ 64
stored_events r k cid i d h e = ground (arith, events-put r k cid i, bytes_eq_iff k cid)

-- The counter of a stored instance that is counted as it was.
stored_same :
    (r : Registry) (k cid : Bytes) (i : Instance)
    → i.active_count ≡ events k r
    → events cid (put r k i) ≡ events cid r
stored_same r k cid i e = ground (arith, events-put r k cid i, bytes_eq_iff k cid)

module _ (cid : Bytes) (r : Registry) (id key detail : Bytes) (now : ℕ)
    (h : events cid r < 2 ^ 64) where
  events-report :
      events cid (after_call r (report id key detail now))
      ≡ (events cid r + counted cid r (report id key detail now)) % 2 ^ 64
  unfolding report_event set_state
  events-report = elim (Option-cases (lookup id r.definitions)) [
    | inl e ↦ rw e (omega arith)
    | inr (d, e) ↦ rw e (stored_events r (compose_instance_id id key) cid _ 1 h refl)
  ]

  events-activate : events cid (after_call r (activate id key detail now)) ≡ events cid r
  unfolding set_active set_state
  events-activate = elim (Option-cases (lookup id r.definitions)) [
    | inl e ↦ rw e
    | inr (d, e) ↦ rw e (stored_same r (compose_instance_id id key) cid _ refl)
  ]

  events-deactivate : events cid (after_call r (deactivate id key detail now)) ≡ events cid r
  unfolding set_deactive set_state
  events-deactivate = elim (Option-cases (lookup id r.definitions)) [
    | inl e ↦ rw e
    | inr (d, e) ↦ rw e (stored_same r (compose_instance_id id key) cid _ refl)
  ]

events-define :
    (cid : Bytes) (r : Registry) (d : Definition)
    → events cid (after_call r (define d)) ≡ events cid r
unfolding register_definition instance_of
events-define cid r d = elim (Bool-cases (is_empty d.id)) [
  | inl e ↦ rw e
  | inr e ↦
      let k = compose_instance_id d.id [] in
      let named : Definition =
        if is_empty d.display_name then record d { display_name = d.id } else d in
      rw e (
        stored_same (record r { definitions = insert d.id named r.definitions }) k cid
          (instance_of r k) refl)
]

events-clock :
    (cid : Bytes) (r : Registry) (now : ℕ) → events cid (after_call r (clock now)) ≡ events cid r
unfolding instance_of after_tick
events-clock cid r now =
    ap (λ (p : Registry × Bool). events cid p.0) (tick_lem r now)
    ∙ ap (λ o. (or_fresh o).active_count) (lookup-after_tick r.definitions now cid r.instances)
    ∙ kept (lookup cid r.instances)
  where
    kept :
        (o : Option Instance)
        → (or_fresh (Option.map (λ i. (after_tick r.definitions now (cid, i)).1) o)).active_count
          ≡ (or_fresh o).active_count
    kept none = refl
    kept (some i) = ground arith

-- One call: only a counted report changes the counter.
events-after_call :
    (cid : Bytes) (r : Registry) (c : Call)
    → events cid r < 2 ^ 64
    → events cid (after_call r c) ≡ (events cid r + counted cid r c) % 2 ^ 64
events-after_call cid r (report id key detail now) h = events-report cid r id key detail now h
events-after_call cid r (activate id key detail now) h =
    omega (arith, events-activate cid r id key detail now h)
events-after_call cid r (deactivate id key detail now) h =
    omega (arith, events-deactivate cid r id key detail now h)
events-after_call cid r (define d) h = omega (arith, events-define cid r d)
events-after_call cid r (clock now) h = omega (arith, events-clock cid r now)

-- After any sequence of calls the event counter of an instance has grown, modulo 2 ^ 64, by the
-- number of events reported to it under a known definition: no other call, no timeout and no event
-- of another instance touches it.
pub events-after_calls :
    (cid : Bytes) (cs : List Call) (r : Registry)
    → events cid r < 2 ^ 64
    → events cid (after_calls r cs) ≡ (events cid r + counted_in cid r cs) % 2 ^ 64
events-after_calls cid [] r h = omega arith
events-after_calls cid (c ∷ cs) r h =
    let one = events-after_call cid r c h in
    omega (arith, one, events-after_calls cid cs (after_call r c) (omega (arith, one)))
