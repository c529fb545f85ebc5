-- ===== src/Tcp/Data.antt =====
-- The data that `readLoop` of ublox_driver/src/rtcm/tcp_client.cpp hands to the callbacks.
use gnss_parser.Prelude.{
  ℕ, ◌≡◌, refl, sym, ap, ◌∙◌, Bool, true, false, List, [], ◌∷◌, ◌++◌, append_assoc, append-nil,
  Option, if◌then◌else◌,
}
use gnss_parser.Prelude.Text.{Bytes, joined}
use gnss_parser.Tcp.{
  Recv, Entry, Client, ◌>>=◌, give, entries_of, open_from, open_connection, notify_connection_state,
  close_socket, dispatch_data_callbacks,
}
use gnss_parser.Tcp.Loop.{connect, attach, accept_connection, read_loop}
use gnss_parser.Tcp.Keeps.{Keeps, handed, if-Keeps, read_loop-Keeps}

-- The data of all the answers of `recv` to buffers of `n` bytes.
abbrev pub all_handed : ℕ → List Recv → Bytes
all_handed n [] = []
all_handed n (r ∷ rs) = handed n r ++ all_handed n rs

joined-append : (xs : List Bytes) (y : Bytes) → joined (xs ++ (y ∷ [])) ≡ joined xs ++ y
joined-append [] y = append-nil y
joined-append (x ∷ xs) y = ap (x ++◌) (joined-append xs y) ∙ sym (append_assoc x (joined xs) y)

-- The data handed on and the data to come are `total`.
abbrev pub IsWhole : ℕ → Bytes → Client → Type 0
IsWhole n total c = joined c.dispatched ++ all_handed n c.recvs ≡ total

hand_on :
    (n : ℕ) (total : Bytes) (c : Client) (r : Recv) (rs : List Recv) (got : Bytes)
    → c.recvs ≡ r ∷ rs
    → handed n r ≡ got
    → IsWhole n total c
    → joined (c.dispatched ++ (got ∷ [])) ++ all_handed n rs ≡ total
hand_on n total c r rs got e h whole =
    ap (λ x. x ++ all_handed n rs) (joined-append c.dispatched got)
    ∙ append_assoc (joined c.dispatched) got (all_handed n rs)
    ∙ ap (λ x. joined c.dispatched ++ (x ++ all_handed n rs)) (sym h)
    ∙ ap (λ x. joined c.dispatched ++ all_handed n x) (sym e)
    ∙ whole

pass_over :
    (n : ℕ) (total : Bytes) (c : Client) (r : Recv) (rs : List Recv)
    → c.recvs ≡ r ∷ rs
    → handed n r ≡ []
    → IsWhole n total c
    → IsWhole n total (record c { recvs = rs })
pass_over n total c r rs e h whole =
    ap (λ x. joined c.dispatched ++ (x ++ all_handed n rs)) (sym h)
    ∙ ap (λ x. joined c.dispatched ++ all_handed n x) (sym e)
    ∙ whole

-- A step that neither reads nor hands on keeps the sum.
abbrev IsSame : Client → Client → Type 0
IsSame c d = (d.dispatched ≡ c.dispatched) × (d.recvs ≡ c.recvs)

IsWhole-eq :
    (n : ℕ) (total : Bytes) (c d : Client) → IsSame c d → IsWhole n total c → IsWhole n total d
IsWhole-eq n total c d same whole = rw (same.0, same.1) whole

if-IsSame : (b : Bool) (m n c : Client) → IsSame c m → IsSame c n → IsSame c (if b then m else n)
if-IsSame true m n c hm hn = hm
if-IsSame false m n c hm hn = hn

notify_connection_state-IsSame : (b : Bool) (c : Client) → IsSame c (notify_connection_state b c)
unfolding notify_connection_state
notify_connection_state-IsSame true c =
    if-IsSame c.connection_active c _ c (refl, refl) (refl, refl)
notify_connection_state-IsSame false c =
    if-IsSame c.connection_active _ c c (refl, refl) (refl, refl)

close_socket-IsSame : (c : Client) → IsSame c (close_socket c)
unfolding close_socket
close_socket-IsSame c =
    if-IsSame c.is_open (record (notify_connection_state false c) { is_open = false }) c c
      (notify_connection_state-IsSame false c) (refl, refl)

module _ (n : ℕ) (total : Bytes) where
  attach-IsWhole : (b : Bool) → Keeps (IsWhole n total) (attach accept_connection n b)
  attach-IsWhole true c whole =
      IsWhole-eq n total c (notify_connection_state true c) (notify_connection_state-IsSame true c)
        whole
  attach-IsWhole false c whole = whole

  open-IsWhole :
      (ls : List (Option (List Entry)))
      → Keeps (IsWhole n total) (open_from ls >>= attach accept_connection n)
  open-IsWhole [] c whole = whole
  open-IsWhole (l ∷ ls) c whole =
      attach-IsWhole (entries_of l) (record c { is_open = entries_of l; lookups = ls }) whole

  connect-IsWhole : Keeps (IsWhole n total) (connect accept_connection n)
  unfolding connect open_connection
  connect-IsWhole c whole =
      if-Keeps (IsWhole n total) c.is_open (give true)
        (open_connection >>= attach accept_connection n) c whole (open-IsWhole c.lookups c whole)

  read_loop-IsWhole : Keeps (IsWhole n total) (read_loop accept_connection n)
  unfolding dispatch_data_callbacks
  read_loop-IsWhole =
      read_loop-Keeps (IsWhole n total) accept_connection n (λ c ps whole. whole)
        (λ c fs whole. whole) (λ c. IsWhole-eq n total c (close_socket c) (close_socket-IsSame c))
        connect-IsWhole (pass_over n total)
        (λ c r rs b bs e h whole. hand_on n total c r rs (b ∷ bs) e h whole)

-- Whatever the system answers and at any time, what `read_loop` of a plain TCP client has handed to
-- the callbacks, joined, with the data of the answers that are left behind it, is what was handed on
-- before it with the data of all the answers behind that: no byte is lost, doubled or moved, over
-- any number of reconnects.
pub read_loop-joined :
    (n : ℕ) (c : Client)
    → let d = (read_loop accept_connection n c).client in
      joined d.dispatched ++ all_handed n d.recvs ≡ joined c.dispatched ++ all_handed n c.recvs
read_loop-joined n c = read_loop-IsWhole n (joined c.dispatched ++ all_handed n c.recvs) c refl
