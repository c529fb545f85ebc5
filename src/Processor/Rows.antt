-- ===== src/Processor/Rows.antt =====
-- The buffer of one satellite: 380 bytes, before and after what the decoders write to it.
use gnss_parser.Prelude.{
  ℕ, zero, suc, ◌+◌, ◌*◌, ◌^◌, ◌<◌, List, [], ◌∷◌, ◌++◌, ◌≡◌, ◌≤◌, ◌-◌, sym, subst, append-nil, ◌∙◌,
  inl, inr, Bool-cases, arith, ltb, ◌==◌, if◌then◌else◌, length, length-append, length-set,
  length-drop, length-replicate, get_or-set_any, set, drop, replicate, byte_at, bit_or,
}
use gnss_parser.Ubx.Bits.{setbitu, getbitu}
use gnss_parser.Ubx.Bits.Byte.{write_bit-lt}
use gnss_parser.Ubx.Bits.Write.{IsBytes, replicate-IsBytes, set_bits-IsBytes, length-set_bits}
use gnss_parser.Ubx.Bits.Fields.{getbitu-value, value-lt}
use gnss_parser.Ephem.{Ephem}
use gnss_parser.Ephem.Gal.{decode_gal_ephem, gal_words, gal_agrees}
use gnss_parser.Processor.{Processor, row, reaching}
use gnss_parser.Processor.Subframes.Gps.{gps_words, gps_word, gps_stored}
use gnss_parser.Processor.Subframes.Bds.{bds_words, bds_word, bds_stored, d1_cleared}
use gnss_parser.Processor.Subframes.Gal.{save_page, gal_stored}

abbrev pub IsRow : List ℕ → Type 0
IsRow r = (length r ≡ 380) × IsBytes r

append-IsBytes : (xs ys : List ℕ) → IsBytes xs → IsBytes ys → IsBytes (xs ++ ys)
append-IsBytes [] ys b c i = c i
append-IsBytes (x ∷ xs) ys b c zero = b 0
append-IsBytes (x ∷ xs) ys b c (suc i) = append-IsBytes xs ys (λ k. b (suc k)) c i

drop-IsBytes : (n : ℕ) (xs : List ℕ) → IsBytes xs → IsBytes (drop n xs)
drop-IsBytes zero xs b i = b i
drop-IsBytes (suc n) [] b i = b i
drop-IsBytes (suc n) (x ∷ xs) b i = drop-IsBytes n xs (λ k. b (suc k)) i

set-IsBytes : (xs : List ℕ) (k v : ℕ) → v < 256 → IsBytes xs → IsBytes (set xs k v)
set-IsBytes xs k v h b i = ground (arith, b i, get_or-set_any xs k i v 0)

pub set-IsRow : (r : List ℕ) (k v : ℕ) → v < 256 → IsRow r → IsRow (set r k v)
set-IsRow r k v h w = (length-set r k v ∙ w.0, set-IsBytes r k v h w.1)

-- A write inside the buffer reaches no more than the buffer.
pub reaching_lem : (n : ℕ) (r : List ℕ) → n ≤ length r → reaching n r ≡ r
reaching_lem n r h = let none : n - length r ≡ 0 = omega arith in rw none (append-nil r)

-- A write that ends inside the buffer does not go past it.
pub reaching-IsRow : (n : ℕ) (r : List ℕ) → n ≤ 380 → IsRow r → IsRow (reaching n r)
reaching-IsRow n r h w = subst IsRow (sym (reaching_lem n r (omega (arith, w.0)))) w

pub setbitu-IsRow : (r : List ℕ) (at len v : ℕ) → IsRow r → IsRow (setbitu r at len v)
unfolding setbitu
setbitu-IsRow r at len v w = elim (Bool-cases (len == 0)) [
  | inl e ↦ rw e w
  | inr e ↦ elim (Bool-cases (ltb 32 len)) [
    | inl f ↦ rw (e, f) w
    | inr f ↦ rw (e, f) (length-set_bits len r at v w.1 ∙ w.0, set_bits-IsBytes len r at v w.1)
  ]
]

pub gps_words-IsRow :
    (d : List ℕ) (n i start : ℕ) (r : List ℕ) → IsRow r → IsRow (gps_words d n i start r)
unfolding gps_words
gps_words-IsRow d zero i start r w = w
gps_words-IsRow d (suc n) i start r w =
    gps_words-IsRow d n (i + 1) start (setbitu r (start + 24 * i) 24 (gps_word d i))
      (setbitu-IsRow r (start + 24 * i) 24 (gps_word d i) w)

pub bds_words-IsRow :
    (d : List ℕ) (n i start : ℕ) (r : List ℕ) → IsRow r → IsRow (bds_words d n i start r)
unfolding bds_words
bds_words-IsRow d zero i start r w = w
bds_words-IsRow d (suc n) i start r w =
    bds_words-IsRow d n (i + 1) start (setbitu r (start + i * 30) 30 (bds_word d i))
      (setbitu-IsRow r (start + i * 30) 30 (bds_word d i) w)

pub gps_stored-IsRow :
    (p : Processor) (d : List ℕ) (sat n : ℕ)
    → n ≤ 4
    → IsRow (row p sat)
    → IsRow (gps_stored p d sat n)
gps_stored-IsRow p d sat n h w =
    gps_words-IsRow d 10 0 (240 * n) (reaching (30 * n + 30) (row p sat))
      (reaching-IsRow (30 * n + 30) (row p sat) (omega arith) w)

pub bds_stored-IsRow :
    (p : Processor) (d : List ℕ) (sat n : ℕ)
    → n ≤ 9
    → IsRow (row p sat)
    → IsRow (bds_stored p d sat n)
bds_stored-IsRow p d sat n h w =
    bds_words-IsRow d 10 0 (304 * n) (reaching (38 * n + 38) (row p sat))
      (reaching-IsRow (38 * n + 38) (row p sat) (omega arith) w)

pub d1_cleared-IsRow : (r : List ℕ) → IsRow r → IsRow (d1_cleared r)
d1_cleared-IsRow r w = (
  length-append (replicate 114 0) (drop 114 r)
      ∙ omega (arith, length-replicate {A = ℕ} 114 0, length-drop 114 r, w.0),
  append-IsBytes (replicate 114 0) (drop 114 r) (replicate-IsBytes 114) (drop-IsBytes 114 r w.1),
)

getbitu-byte : (buff : List ℕ) (j : ℕ) → getbitu buff j 8 < 256
getbitu-byte buff j = rw (getbitu-value buff j 8 (omega arith)) (value-lt buff 8 j)

save_page-IsRow :
    (buff : List ℕ) (n j k : ℕ) (r : List ℕ) → IsRow r → IsRow (save_page buff n j k r)
unfolding save_page
save_page-IsRow buff zero j k r w = w
save_page-IsRow buff (suc n) j k r w =
    save_page-IsRow buff n (j + 8) (k + 1) (set r k (getbitu buff j 8))
      (set-IsRow r k (getbitu buff j 8) (getbitu-byte buff j) w)

-- A flag joined to a byte is a byte.
pub bit_or-byte : (k x : ℕ) → k < 8 → x < 256 → bit_or x (2 ^ k) < 256
bit_or-byte k x h b = write_bit-lt 1 k x (omega arith) h b

pub gal_stored-IsRow :
    (buff : List ℕ) (type : ℕ) (r : List ℕ) → type < 8 → IsRow r → IsRow (gal_stored buff type r)
unfolding gal_stored
gal_stored-IsRow buff type r h w =
    let reached = reaching (type * 16 + 16) (reaching 113 r) in
    let v : IsRow reached =
      reaching-IsRow (type * 16 + 16) (reaching 113 r) (omega arith)
        (reaching-IsRow 113 r (omega arith) w) in
    let cleared = if type == 2 then set reached 112 0 else reached in
    let w' : IsRow cleared = elim (Bool-cases (type == 2)) [
      | inl e ↦ rw e (set-IsRow reached 112 0 (omega arith) v)
      | inr e ↦ rw e v
    ] in
    let first = save_page buff 14 2 (type * 16) cleared in
    let saved = save_page buff 2 130 (type * 16 + 14) first in
    let s : IsRow saved =
      save_page-IsRow buff 2 130 (type * 16 + 14) first
        (save_page-IsRow buff 14 2 (type * 16) cleared w') in
    set-IsRow saved 112 (bit_or (byte_at saved 112) (2 ^ type))
      (bit_or-byte type (byte_at saved 112) h (s.1 112)) s

-- The Galileo decoder leaves the buffer as it is, or clears it.
pub decode_gal-IsRow : (r : List ℕ) (e : Ephem) → IsRow r → IsRow (decode_gal_ephem r e).1
unfolding decode_gal_ephem
decode_gal-IsRow r e w = elim (Bool-cases (gal_words r)) [
  | inr e1 ↦ rw e1 w
  | inl e1 ↦ elim (Bool-cases (gal_agrees r e.sat)) [
    | inr e2 ↦ rw (e1, e2) w
    | inl e2 ↦ rw (e1, e2) (length-replicate {A = ℕ} 380 0, replicate-IsBytes 380)
  ]
]
