-- ===== src/Ubx/Signals/Index.antt =====
-- Each signal code that the receiver's numbers give has a frequency index.
use gnss_parser.Prelude.{ℕ, ◌+◌, ◌≤◌, ◌≡◌, ◌↔◌, arith}
use gnss_parser.Gnss.Satellites.{sys_none}
use gnss_parser.Ubx.Signals.{ubx_sys, ubx_sig, sig_idx, n_freq, code_none}

-- For every system and signal number, `sig_idx` of the code that `ubx_sig` gives is 0 exactly if
-- the code is CODE_NONE, so that no signal that `ubx_sig` names is without an index; and the index
-- is at most N_FREQ + 1.
sig_idx-ubx_sig :
    (sys sigid : ℕ)
    → ((sig_idx sys (ubx_sig sys sigid) ≡ 0) ↔ (ubx_sig sys sigid ≡ code_none))
      × (sig_idx sys (ubx_sig sys sigid) ≤ n_freq + 1)
unfolding sig_idx ubx_sig
sig_idx-ubx_sig sys sigid = ground arith

-- Two GNSS ids that `ubx_sys` maps to the same system, not SYS_NONE, are equal.
ubx_sys-injective : (a b : ℕ) → ubx_sys a ≡ ubx_sys b → ¬ (ubx_sys a ≡ sys_none) → a ≡ b
unfolding ubx_sys
ubx_sys-injective a b e some_sys = ground arith
