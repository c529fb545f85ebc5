-- ===== src/Driver/Startup/Answers.antt =====
-- The outcome of the start-up configuration by the answer of the receiver.
use gnss_parser.Prelude.{ℕ, ◌≡◌, true, List, [], ◌∷◌, length}
use gnss_parser.Prelude.Text.{Bytes}
use gnss_parser.Ubx.Frame.{other, check_ack}
use gnss_parser.Ubx.Frame.Spec.{frame}
use gnss_parser.Config.Framed.{valset}
use gnss_parser.Params.Records.{item_bytes}
use gnss_parser.Driver.Startup.{Wake, heard, nothing, shut, late, Startup}

-- Rounds with no answer, no shutdown and no deadline.
abbrev pub AreSilent : List Wake → Type 0
AreSilent [] = Unit
AreSilent (heard bs ∷ ws) = (check_ack bs (length bs) ≡ other) × AreSilent ws
AreSilent (nothing ∷ ws) = AreSilent ws
AreSilent (shut ∷ ws) = ⊥
AreSilent (late ∷ ws) = ⊥

-- The message of the items.
abbrev pub message : List (ℕ × List ℕ) → Bytes
message items = frame 0x06 0x8A (valset (item_bytes items))

-- An open port that takes the write, with what comes while the code waits, and what the reader still
-- hears before it stops.
abbrev pub open_port : List Wake → List Bytes → Startup
open_port ws late_data = record {
  port_open = true;
  write_ok = true;
  wakes = ws;
  late_data = late_data;
}

abbrev pub IsNoAnswer : Bytes → Type 0
IsNoAnswer bs = check_ack bs (length bs) ≡ other
