-- ===== src/Ubx/Frame/Accept.antt =====
-- `verifyMsg` accepts exactly the frames of the wire format.
use gnss_parser.Prelude.{
  ℕ, zero, suc, ◌+◌, ◌-◌, ◌*◌, ◌/◌, ◌%◌, ◌≤◌, ◌<◌, ◌^◌, true, List, [], ◌∷◌, ◌++◌, ◌≡◌, refl, sym,
  ap, subst, arith, length, length-append, All, ◌↔◌,
}
use gnss_parser.Ubx.Checksum.{Sums, zero_sums, sum_bytes}
use gnss_parser.Ubx.Checksum.Split.{closed, check-closed}
use gnss_parser.Ubx.Frame.{verify_msg}
use gnss_parser.Ubx.Frame.Spec.{IsByte, frame_body, frame, IsFrame}
use gnss_parser.Ubx.Frame.Sums.{frame_lem}

-- A list of at least two elements ends in two.
pub record EndsInTwo (l : List ℕ) (n : ℕ) : Type 0 where
  pub init : List ℕ
  pub fst : ℕ
  pub snd : ℕ
  pub init_length : length init ≡ n
  pub splits : l ≡ init ++ (fst ∷ snd ∷ [])

pub ends_in_two : (n : ℕ) (l : List ℕ) → length l ≡ n + 2 → EndsInTwo l n
ends_in_two zero [] h = absurd (omega arith)
ends_in_two zero (x ∷ []) h = absurd (omega arith)
ends_in_two zero (x ∷ y ∷ []) h = record {
  init = [];
  fst = x;
  snd = y;
  init_length = refl;
  splits = refl;
}
ends_in_two zero (x ∷ y ∷ z ∷ l) h = absurd (omega arith)
ends_in_two (suc n) [] h = absurd (omega arith)
ends_in_two (suc n) (x ∷ l) h =
    let r = ends_in_two n l (omega arith) in
    record {
      init = x ∷ r.init;
      fst = r.fst;
      snd = r.snd;
      init_length = ap suc r.init_length;
      splits = ap (◌∷◌ x) r.splits;
    }

-- What the tests before the checksum leave: a header and a payload of the announced length.
verify_msg-closed :
    (h0 h1 c i lo hi a b : ℕ) (p : List ℕ)
    → (verify_msg (closed h0 h1 (c ∷ i ∷ lo ∷ hi ∷ p) a b) (length p + 8) ≡ true) ↔ (
        (h0 ≡ 0xB5)
        × (h1 ≡ 0x62)
        × (length p ≡ lo + 256 * hi)
        × ((sum_bytes zero_sums (c ∷ i ∷ lo ∷ hi ∷ p)).cka ≡ a)
        × ((sum_bytes zero_sums (c ∷ i ∷ lo ∷ hi ∷ p)).ckb ≡ b))
unfolding verify_msg
verify_msg-closed h0 h1 c i lo hi a b p =
    ground (arith, check-closed h0 h1 (c ∷ i ∷ lo ∷ hi ∷ p) a b (length p + 8))

frame-accepted :
    (c i : ℕ) (p : List ℕ)
    → length p < 2 ^ 16
    → verify_msg (frame c i p) (length (frame c i p)) ≡ true
frame-accepted c i p h =
    rw (frame_lem c i p, length_frame)
      ((verify_msg-closed 0xB5 0x62 c i (length p % 256) (length p / 256) s.cka s.ckb p).1
        (refl, refl, omega arith, refl, refl))
  where
    s : Sums
    s = sum_bytes zero_sums (frame_body c i p)

    length_frame : length (closed 0xB5 0x62 (frame_body c i p) s.cka s.ckb) ≡ length p + 8
    length_frame = omega (arith, length-append p (s.cka ∷ s.ckb ∷ []))

closed_eq :
    (h0 h1 c i lo hi a b : ℕ) (p : List ℕ)
    → (h0 ≡ 0xB5)
      × (h1 ≡ 0x62)
      × (length p ≡ lo + 256 * hi)
      × ((sum_bytes zero_sums (c ∷ i ∷ lo ∷ hi ∷ p)).cka ≡ a)
      × ((sum_bytes zero_sums (c ∷ i ∷ lo ∷ hi ∷ p)).ckb ≡ b)
    → lo ≡ length p % 256
    → hi ≡ length p / 256
    → closed h0 h1 (c ∷ i ∷ lo ∷ hi ∷ p) a b ≡ frame c i p
closed_eq h0 h1 c i lo hi a b p facts low high =
    rw (facts.0, facts.1, ← facts.3, ← facts.4, low, high) (sym (frame_lem c i p))

-- What passes `verifyMsg` is the frame of its class, id and payload.
closed-IsFrame :
    (h0 h1 c i lo hi a b : ℕ) (p : List ℕ)
    → All IsByte (c ∷ i ∷ lo ∷ hi ∷ p)
    → verify_msg (closed h0 h1 (c ∷ i ∷ lo ∷ hi ∷ p) a b) (length p + 8) ≡ true
    → IsFrame (closed h0 h1 (c ∷ i ∷ lo ∷ hi ∷ p) a b)
closed-IsFrame h0 h1 c i lo hi a b p bytes v =
    let facts = (verify_msg-closed h0 h1 c i lo hi a b p).0 v in
    let low : lo ≡ length p % 256 = omega arith in
    let high : hi ≡ length p / 256 = omega arith in
    record {
      cls = c;
      id = i;
      payload = p;
      cls_byte = bytes.0;
      id_byte = bytes.1.0;
      payload_bytes = bytes.1.1.1.1;
      short = omega arith;
      framed = closed_eq h0 h1 c i lo hi a b p facts low high;
    }

accepted_two :
    (h0 h1 c i lo hi : ℕ) (rest : List ℕ)
    → verify_msg (h0 ∷ h1 ∷ c ∷ i ∷ lo ∷ hi ∷ rest) (length rest + 6) ≡ true
    → 2 ≤ length rest
unfolding verify_msg
accepted_two h0 h1 c i lo hi rest v = ground arith

All-append_left : (xs ys : List ℕ) → All IsByte (xs ++ ys) → All IsByte xs
All-append_left [] ys h = tt
All-append_left (x ∷ xs) ys h = (h.0, All-append_left xs ys h.1)

accepted_long :
    (h0 h1 c i lo hi n : ℕ) (rest : List ℕ)
    → EndsInTwo rest n
    → All IsByte (c ∷ i ∷ lo ∷ hi ∷ rest)
    → verify_msg (h0 ∷ h1 ∷ c ∷ i ∷ lo ∷ hi ∷ rest) (length rest + 6) ≡ true
    → IsFrame (h0 ∷ h1 ∷ c ∷ i ∷ lo ∷ hi ∷ rest)
accepted_long h0 h1 c i lo hi n rest r bytes v =
    subst (λ l. IsFrame (h0 ∷ h1 ∷ c ∷ i ∷ lo ∷ hi ∷ l)) (sym r.splits)
      (closed-IsFrame h0 h1 c i lo hi r.fst r.snd r.init kept (rw (← size) accepted))
  where
    kept : All IsByte (c ∷ i ∷ lo ∷ hi ∷ r.init)
    kept = (
      bytes.0,
      (
        bytes.1.0,
        (
          bytes.1.1.0,
          (
            bytes.1.1.1.0,
            All-append_left r.init (r.fst ∷ r.snd ∷ []) (subst (All IsByte) r.splits bytes.1.1.1.1),
          ),
        ),
      ),
    )

    accepted :
        verify_msg
          (closed h0 h1 (c ∷ i ∷ lo ∷ hi ∷ r.init) r.fst r.snd)
          (length (r.init ++ (r.fst ∷ r.snd ∷ [])) + 6)
        ≡ true
    accepted =
        subst (λ l. verify_msg (h0 ∷ h1 ∷ c ∷ i ∷ lo ∷ hi ∷ l) (length l + 6) ≡ true) r.splits v

    size : length (r.init ++ (r.fst ∷ r.snd ∷ [])) + 6 ≡ length r.init + 8
    size = omega (arith, length-append r.init (r.fst ∷ r.snd ∷ []))

accepted-IsFrame :
    (data' : List ℕ) → All IsByte data' → verify_msg data' (length data') ≡ true → IsFrame data'
unfolding verify_msg
accepted-IsFrame (h0 ∷ h1 ∷ c ∷ i ∷ lo ∷ hi ∷ rest) bytes v =
    let v' : verify_msg (h0 ∷ h1 ∷ c ∷ i ∷ lo ∷ hi ∷ rest) (length rest + 6) ≡ true =
      subst (λ k. verify_msg (h0 ∷ h1 ∷ c ∷ i ∷ lo ∷ hi ∷ rest) k ≡ true) (omega arith) v in
    accepted_long h0 h1 c i lo hi (length rest - 2) rest
      (ends_in_two (length rest - 2) rest (omega (arith, accepted_two h0 h1 c i lo hi rest v')))
      bytes.1.1 v'
accepted-IsFrame _ bytes v = cc

-- A list of bytes passes `verifyMsg` exactly when it is the frame of some message: sync bytes, a
-- length field that counts the payload, and the checksum over class, id, length and payload.
pub verify_msg_iff :
    (data' : List ℕ) → All IsByte data' → (verify_msg data' (length data') ≡ true) ↔ IsFrame data'
verify_msg_iff data' bytes = (
  accepted-IsFrame data' bytes,
  λ f.
      subst (λ l. verify_msg l (length l) ≡ true) (sym f.framed)
        (frame-accepted f.cls f.id f.payload f.short),
)
