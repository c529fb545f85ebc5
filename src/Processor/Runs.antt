-- ===== src/Processor/Runs.antt =====
-- Messages in a row, and what is published for them, up to a message that ends the program.
use gnss_parser.Prelude.{
  ℕ, zero, suc, ◌<◌, List, [], ◌∷◌, ◌++◌, ◌≡◌, refl, sym, subst, arith, Option, get_or, replicate,
  length-replicate,
}
use gnss_parser.Gnss.Satellites.{max_sat}
use gnss_parser.Processor.Rows.{IsRow}
use gnss_parser.Ubx.Bits.Write.{replicate-IsBytes}
use gnss_parser.Processor.{Processor, processor_0}
use gnss_parser.Processor.Publish.{RosHandler, Publication, processed, process_data}
use gnss_parser.Processor.Invariant.{IsWell, process_data-IsWell}

pub data Runs (h : Option RosHandler)
    : Processor → List (List ℕ) → Processor → List Publication → Type 0 where
  stop : {p : Processor} → Runs h p [] p []
  next :
      {p q r : Processor} {d : List ℕ} {ds : List (List ℕ)} {out more : List Publication}
      → process_data h p d ≡ processed q out
      → Runs h q ds r more
      → Runs h p (d ∷ ds) r (out ++ more)

pub Runs-IsWell :
    (h : Option RosHandler) (p r : Processor) (ds : List (List ℕ)) (out : List Publication)
    → IsWell p
    → Runs h p ds r out
    → IsWell r
Runs-IsWell h p r ds out w stop = w
Runs-IsWell h p r ds out w (next {q = q} {d = d} {ds = ds'} {out = o} {more = more} e rest) =
    Runs-IsWell h q r ds' more (process_data-IsWell h p q d o w e) rest

get_or-replicate : {A : Type 0} (n i : ℕ) (a d : A) → i < n → get_or (replicate n a) i d ≡ a
get_or-replicate zero i a d h = absurd (omega arith)
get_or-replicate (suc n) zero a d h = refl
get_or-replicate (suc n) (suc i) a d h = get_or-replicate n i a d (omega arith)

pub processor_0-IsWell : IsWell processor_0
processor_0-IsWell = record {
  row_count = length-replicate max_sat (replicate {A = ℕ} 380 0);
  flag_count = length-replicate {A = ℕ} max_sat 0;
  rows = λ i h.
      subst IsRow (sym (get_or-replicate max_sat i (replicate {A = ℕ} 380 0) [] h))
        (length-replicate {A = ℕ} 380 0, replicate-IsBytes 380);
  flags = λ i h. omega (arith, get_or-replicate {A = ℕ} max_sat i 0 0 h);
}

-- In every state that the processor comes to from its constructor, over any messages that do not
-- end the program, the tables have an entry for each satellite, no subframe has been written past the
-- 380 bytes of a satellite's buffer, and the buffers and the flags hold bytes.
pub reached-IsWell :
    (h : Option RosHandler) (r : Processor) (ds : List (List ℕ)) (out : List Publication)
    → Runs h processor_0 ds r out
    → IsWell r
reached-IsWell h r ds out run = Runs-IsWell h processor_0 r ds out processor_0-IsWell run
