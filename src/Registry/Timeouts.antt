-- ===== src/Registry/Timeouts.antt =====
-- `tick` against a description with no loop over the definitions in it: an instance times out when
-- it is active and expires under some definition.
use gnss_parser.Prelude.{
  ℕ, ◌+◌, Bool, false, ◌&&◌, ◌||◌, List, [], ◌∷◌, Option, none, some, ◌≡◌, refl, sym, ap₂, ◌∙◌,
  arith, leb, if◌then◌else◌, map, Option-cases, inl, inr,
}
use mathlib.Core.Option
use gnss_parser.Prelude.Text.{Bytes, codes, starts_with, bytes_eq_iff}
use gnss_parser.Prelude.Map.{Map, lookup}
use gnss_parser.Registry.{
  deactive, Definition, Instance, Registry, is_active, timeout_of, tick_one, tick_instances,
  tick_definitions, tick,
}

-- The instance at `cid` has seen no event for the timeout of a definition whose id is a prefix of
-- `cid`.
abbrev pub expires_under : Option ℕ → Bytes → ℕ → Bytes → Instance → Bool
expires_under none id now cid i = false
expires_under (some limit) id now cid i = starts_with cid id && leb (i.last_event_time + limit) now

unfoldable pub expires : List (Bytes × Definition) → ℕ → Bytes → Instance → Bool
expires [] now cid i = false
expires ((k, d) ∷ ds) now cid i =
    expires_under (timeout_of d) d.id now cid i || expires ds now cid i

-- The instance after its timeout.
abbrev pub retired : ℕ → Instance → Instance
retired now i = record i {
  state = deactive;
  last_detail = codes "timeout";
  last_transition_time = now;
}

abbrev pub times_out : List (Bytes × Definition) → ℕ → Bytes × Instance → Bool
times_out ds now (cid, i) = is_active i && expires ds now cid i

unfoldable pub after_tick : List (Bytes × Definition) → ℕ → Bytes × Instance → Bytes × Instance
after_tick ds now (cid, i) = (cid, if times_out ds now (cid, i) then retired now i else i)

unfoldable pub some_times_out : List (Bytes × Definition) → ℕ → Map Instance → Bool
some_times_out ds now [] = false
some_times_out ds now (e ∷ m) = times_out ds now e || some_times_out ds now m

-- One definition with a timeout, over all instances.
module _ (k : Bytes) (d : Definition) (limit now : ℕ) (e : timeout_of d ≡ some limit) where
  tick_one_lem :
      (cid : Bytes) (i : Instance)
      → tick_one d.id limit now cid i
        ≡ ((after_tick ((k, d) ∷ []) now (cid, i)).1, times_out ((k, d) ∷ []) now (cid, i))
  unfolding tick_one after_tick expires
  tick_one_lem cid i = ground arith

  tick_instances_lem :
      (m : Map Instance)
      → tick_instances d.id limit now m
        ≡ (map (after_tick ((k, d) ∷ []) now) m, some_times_out ((k, d) ∷ []) now m)
  unfolding tick_instances some_times_out after_tick
  tick_instances_lem [] = refl
  tick_instances_lem ((cid, i) ∷ m) = rw (tick_one_lem cid i, tick_instances_lem m)

-- No definition: nothing changes.
after_none : (now : ℕ) (m : Map Instance) → map (after_tick [] now) m ≡ m
unfolding after_tick expires
after_none now [] = refl
after_none now ((cid, i) ∷ m) = ap₂ ◌∷◌ (ground arith) (after_none now m)

some_none : (now : ℕ) (m : Map Instance) → some_times_out [] now m ≡ false
unfolding some_times_out expires
some_none now [] = refl
some_none now ((cid, i) ∷ m) = ground (arith, some_none now m)

-- A definition with no timeout: the others decide.
module _ (k : Bytes) (d : Definition) (ds : List (Bytes × Definition)) (now : ℕ) where
  after_skip :
      timeout_of d ≡ none
      → (m : Map Instance) → map (after_tick ((k, d) ∷ ds) now) m ≡ map (after_tick ds now) m
  unfolding after_tick expires
  after_skip e [] = refl
  after_skip e ((cid, i) ∷ m) = ap₂ ◌∷◌ (ground arith) (after_skip e m)

  some_skip :
      timeout_of d ≡ none
      → (m : Map Instance) → some_times_out ((k, d) ∷ ds) now m ≡ some_times_out ds now m
  unfolding some_times_out expires
  some_skip e [] = refl
  some_skip e ((cid, i) ∷ m) = ground (arith, some_skip e m)

  -- The first definition, then the others.
  after_both :
      (m : Map Instance)
      → map (after_tick ds now) (map (after_tick ((k, d) ∷ []) now) m)
        ≡ map (after_tick ((k, d) ∷ ds) now) m
  unfolding after_tick expires
  after_both [] = refl
  after_both ((cid, i) ∷ m) = ap₂ ◌∷◌ (ground arith) (after_both m)

  some_both :
      (m : Map Instance)
      → (some_times_out ds now (map (after_tick ((k, d) ∷ []) now) m)
          || some_times_out ((k, d) ∷ []) now m)
        ≡ some_times_out ((k, d) ∷ ds) now m
  unfolding some_times_out after_tick expires
  some_both [] = refl
  some_both ((cid, i) ∷ m) = ground (arith, some_both m)

pair : Map Instance → Bool → Map Instance × Bool
pair m c = (m, c)

tick_definitions_lem :
    (ds : List (Bytes × Definition)) (now : ℕ) (m : Map Instance)
    → tick_definitions ds now m ≡ (map (after_tick ds now) m, some_times_out ds now m)
unfolding tick_definitions pair
tick_definitions_lem [] now m = rw (after_none, some_none)
tick_definitions_lem ((k, d) ∷ ds) now m = elim (Option-cases (timeout_of d)) [
  | inl e ↦
      rw (e, tick_definitions)
        (tick_definitions_lem ds now m
          ∙ ap₂ pair (sym (after_skip k d ds now e m)) (sym (some_skip k d ds now e m)))
  | inr (limit, e) ↦
      rw (e, tick_definitions)
        (rw (tick_instances_lem k d limit now e m) (
          rw (tick_definitions_lem ds now (map (after_tick ((k, d) ∷ []) now) m))
            (ap₂ pair (after_both k d ds now m) (some_both k d ds now m))))
]

-- `tick` times out exactly the active instances that expire under some definition, leaves the
-- others and the definitions, and reports whether there was one.
pub tick_lem :
    (r : Registry) (now : ℕ)
    → tick r now ≡ (
      record r { instances = map (after_tick r.definitions now) r.instances },
      some_times_out r.definitions now r.instances,
    )
unfolding tick
tick_lem r now = rw tick_definitions_lem

module _ (ds : List (Bytes × Definition)) (now : ℕ) where
  after_twice :
      (m : Map Instance)
      → map (after_tick ds now) (map (after_tick ds now) m) ≡ map (after_tick ds now) m
  unfolding after_tick
  after_twice [] = refl
  after_twice ((cid, i) ∷ m) = ap₂ ◌∷◌ (ground arith) (after_twice m)

  none_left : (m : Map Instance) → some_times_out ds now (map (after_tick ds now) m) ≡ false
  unfolding after_tick some_times_out
  none_left [] = refl
  none_left ((cid, i) ∷ m) = ground (arith, none_left m)

-- A second `tick` at the same time finds nothing to do: it changes nothing and reports no change.
tick-tick : (r : Registry) (now : ℕ) → tick (tick r now).0 now ≡ ((tick r now).0, false)
tick-tick r now = rw (tick_lem r now) (
    rw (tick_lem (record r { instances = map (after_tick r.definitions now) r.instances }) now) (
      settled (after_twice r.definitions now r.instances)
        (none_left r.definitions now r.instances)))
  where
    settled :
        {m m' : Map Instance} {c : Bool}
        → m ≡ m'
        → c ≡ false
        → ◌≡◌ {A = Registry × Bool}
            (record r { instances = m }, c)
            (record r { instances = m' }, false)
    settled p q = cc

pub lookup-after_tick :
    (ds : List (Bytes × Definition)) (now : ℕ) (cid : Bytes) (m : Map Instance)
    → lookup cid (map (after_tick ds now) m)
      ≡ Option.map (λ i. (after_tick ds now (cid, i)).1) (lookup cid m)
unfolding lookup after_tick
lookup-after_tick ds now cid [] = refl
lookup-after_tick ds now cid ((j, i) ∷ m) =
    ground (arith, bytes_eq_iff j cid, lookup-after_tick ds now cid m)
