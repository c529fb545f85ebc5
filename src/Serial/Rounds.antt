-- ===== src/Serial/Rounds.antt =====
-- One round of `read_loop` on an open port.
use gnss_parser.Prelude.{
  take-append_left, drop-append_left, ℕ, suc, ◌+◌, ◌≤◌, ◌≡◌, refl, ap, ap₂, subst, ◌∙◌, true, false,
  List, [], ◌∷◌, ◌++◌, leb, ltb, Bool-cases, if◌then◌else◌, length, take, drop, length-append,
  length-take, length-drop, take-append, drop-append, arith, inl, inr, byte_at, take-append-drop,
}
use gnss_parser.Ubx.Frame.{u16_at}
use gnss_parser.Serial.{
  Event, done, stopped, Read, Synced, ended, overflow, read_exact, bytes_of, sync, read_loop,
  cons_message, quit,
}
use gnss_parser.Serial.Exact.{IsLive, read_exact-IsExact}
use gnss_parser.Serial.Sync.{is_pair, skip, IsSynced, sync-IsSynced, length-skip}
use gnss_parser.Serial.Noise.{IsNoise, skip-noise_end}

-- A message by its sync bytes and its length field, that fits a buffer of `buf_size` bytes.
abbrev pub IsMessage : ℕ → List ℕ → Type 0
IsMessage buf_size m =
    (is_pair (byte_at m 0) (byte_at m 1) ≡ true)
    × (length m ≡ 6 + (u16_at m 4 + 2))
    × (length m ≤ buf_size)

-- One round of `read_loop` up to the search for the preamble.
abbrev pub start : List Event → Synced
start es = let head = read_exact 6 es in sync (suc (length (bytes_of head.rest))) head.got head.rest

start-IsSynced :
    (es : List Event)
    → IsLive es
    → 6 ≤ length (bytes_of es)
    → ((read_exact 6 es).status ≡ done) × IsSynced (skip (bytes_of es)) (start es)
start-IsSynced es live fit =
    let r = read_exact-IsExact 6 es live in
    let len : length (read_exact 6 es).got ≡ 6 =
      ap length r.0 ∙ omega (arith, length-take 6 (bytes_of es)) in
    let whole : (read_exact 6 es).got ++ bytes_of (read_exact 6 es).rest ≡ bytes_of es =
      ap₂ (◌++◌) r.0 r.1 ∙ take-append-drop 6 (bytes_of es) in
    let synced =
      sync-IsSynced (suc (length (bytes_of (read_exact 6 es).rest))) (read_exact 6 es).got
        (read_exact 6 es).rest r.3 len (omega arith) in
    (r.2 ∙ ground arith, subst (λ t. IsSynced (skip t) (start es)) whole synced)

u16_at-take : (m : List ℕ) → 6 ≤ length m → u16_at (take 6 m) 4 ≡ u16_at m 4
u16_at-take [] le = absurd (omega arith)
u16_at-take (a ∷ []) le = absurd (omega arith)
u16_at-take (a ∷ b ∷ []) le = absurd (omega arith)
u16_at-take (a ∷ b ∷ c ∷ []) le = absurd (omega arith)
u16_at-take (a ∷ b ∷ c ∷ d ∷ []) le = absurd (omega arith)
u16_at-take (a ∷ b ∷ c ∷ d ∷ e ∷ []) le = absurd (omega arith)
u16_at-take (a ∷ b ∷ c ∷ d ∷ e ∷ f ∷ m) le = refl

-- A round of the loop that completes: its message and the events it leaves.
abbrev pub body : List Event → Read
body es = read_exact (u16_at (start es).header 4 + 2) (start es).rest

round_done :
    (buf_size fuel : ℕ) (es : List Event)
    → (read_exact 6 es).status ≡ done
    → (start es).status ≡ done
    → ltb buf_size (6 + length (body es).got) ≡ false
    → (body es).status ≡ done
    → read_loop buf_size (suc fuel) es
      ≡ cons_message ((start es).header ++ (body es).got) (read_loop buf_size fuel (body es).rest)
unfolding read_loop read_exact sync
round_done buf_size fuel es head synced fits full = rw (head, synced, fits, full) refl

-- The header that a message gives, and the read of its body.
pub header_lem :
    (es : List Event) (m s : List ℕ)
    → IsLive es
    → length m ≡ 6 + (u16_at m 4 + 2)
    → skip (bytes_of es) ≡ m ++ s
    → ((read_exact 6 es).status ≡ done)
      × ((start es).status ≡ done)
      × ((start es).header ≡ take 6 m)
      × (bytes_of (start es).rest ≡ drop 6 m ++ s)
      × IsLive (start es).rest
header_lem es m s live len e =
    let m_s = length-append m s in
    let fit : 6 ≤ length (bytes_of es) =
      omega (arith, length-skip (bytes_of es), ap length e, m_s, len) in
    let st = start-IsSynced es live fit in
    let found : (start es).status ≡ done = st.1.0 ∙ ground (arith, ap length e, m_s, len) in
    let got = st.1.1 found in
    (
      st.0,
      found,
      got.0 ∙ ap (take 6) e ∙ take-append_left 6 m s (omega arith),
      got.1 ∙ ap (drop 6) e ∙ drop-append_left 6 m s (omega arith),
      st.1.2,
    )

pub body_size :
    (es : List Event) (m : List ℕ)
    → length m ≡ 6 + (u16_at m 4 + 2)
    → (start es).header ≡ take 6 m
    → u16_at (start es).header 4 ≡ u16_at m 4
body_size es m len e = ap (λ h. u16_at h 4) e ∙ u16_at-take m (omega arith)

pub body-IsExact :
    (es : List Event) (m s : List ℕ)
    → IsLive es
    → length m ≡ 6 + (u16_at m 4 + 2)
    → skip (bytes_of es) ≡ m ++ s
    → ((body es).status ≡ done)
      × ((start es).header ++ (body es).got ≡ m)
      × (bytes_of (body es).rest ≡ s)
      × IsLive (body es).rest
body-IsExact es m s live len e =
    let h = header_lem es m s live len e in
    let n = u16_at (start es).header 4 + 2 in
    let size : n ≡ length (drop 6 m) =
      omega (arith, body_size es m len h.2, length-drop 6 m, len) in
    let r = read_exact-IsExact n (start es).rest h.4 in
    let enough = length-append (drop 6 m) s in
    (
      r.2 ∙ ground (arith, ap length h.3, enough, size),
      ap₂ (◌++◌) h.2 (r.0 ∙ ap (take n) h.3 ∙ take-append (drop 6 m) s n size)
          ∙ take-append-drop 6 m,
      r.1 ∙ ap (drop n) h.3 ∙ drop-append (drop 6 m) s n size,
      r.3,
    )

-- The bytes that arrive for the body of a message.
pub length-got :
    (es : List Event) (m s : List ℕ)
    → IsLive es
    → length m ≡ 6 + (u16_at m 4 + 2)
    → skip (bytes_of es) ≡ m ++ s
    → 6 + length (body es).got ≡ length m
length-got es m s live len e =
    let h = header_lem es m s live len e in
    let b = body-IsExact es m s live len e in
    omega (
      arith,
      ap length b.1,
      length-append (start es).header (body es).got,
      ap length h.2,
      length-take 6 m,
      len,
    )

pub round_message :
    (buf_size fuel : ℕ) (es : List Event) (m s : List ℕ)
    → IsLive es
    → IsMessage buf_size m
    → skip (bytes_of es) ≡ m ++ s
    → read_loop buf_size (suc fuel) es ≡ cons_message m (read_loop buf_size fuel (body es).rest)
round_message buf_size fuel es m s live msg e =
    let h = header_lem es m s live msg.1 e in
    let b = body-IsExact es m s live msg.1 e in
    let size = length-got es m s live msg.1 e in
    let fits : ltb buf_size (6 + length (body es).got) ≡ false = ground (arith, size, msg.2) in
    round_done buf_size fuel es h.0 h.1 fits b.0
    ∙ ap (λ l. cons_message l (read_loop buf_size fuel (body es).rest)) b.1

round_head_stopped :
    (buf_size fuel : ℕ) (es : List Event)
    → (read_exact 6 es).status ≡ stopped
    → read_loop buf_size (suc fuel) es ≡ quit ended
unfolding read_loop read_exact sync
round_head_stopped buf_size fuel es head = rw head refl

round_sync_stopped :
    (buf_size fuel : ℕ) (es : List Event)
    → (read_exact 6 es).status ≡ done
    → (start es).status ≡ stopped
    → read_loop buf_size (suc fuel) es ≡ quit ended
unfolding read_loop read_exact sync
round_sync_stopped buf_size fuel es head synced = rw (head, synced) refl

pub round_noise :
    (buf_size fuel : ℕ) (es : List Event)
    → IsLive es
    → IsNoise (bytes_of es)
    → read_loop buf_size (suc fuel) es ≡ quit ended
round_noise buf_size fuel es live noise =
    let end = skip-noise_end (bytes_of es) noise in
    elim (Bool-cases (leb 6 (length (bytes_of es)))) [
      | inl fit ↦
          let st = start-IsSynced es live (ground arith) in
          round_sync_stopped buf_size fuel es st.0 (st.1.0 ∙ ground (arith, end))
      | inr short ↦
          round_head_stopped buf_size fuel es
            ((read_exact-IsExact 6 es live).2 ∙ ap (λ b. if b then done else stopped) short)
    ]

pub round_overflow :
    (buf_size fuel : ℕ) (es : List Event)
    → (read_exact 6 es).status ≡ done
    → (start es).status ≡ done
    → ltb buf_size (6 + length (body es).got) ≡ true
    → read_loop buf_size (suc fuel) es ≡ quit overflow
unfolding read_loop read_exact sync
round_overflow buf_size fuel es head synced over = rw (head, synced, over) refl
