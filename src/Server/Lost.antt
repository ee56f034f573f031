-- ===== src/Server/Lost.antt =====
-- The error lists that the UDP server sends for lost frames.
use mathlib.Core.List.{map-append}
use Prim.Native.Nat.add
use recd.Common.{
  ℕ, zero, suc, ◌+◌, ◌*◌, ◌≡◌, refl, sym, ap, ◌∙◌, true, some, List, [], ◌∷◌, ◌++◌, arith, some-eq,
  length, tabulate, map, length-tabulate, length-append, append-nil, append_assoc, if-true,
}
use recd.Frame.{Frame}
use recd.Server.{Server, SampleData, sub_u32, put_data, send_errs, on_desynch, rounds, note_desynch}
use recd.Server.Entries.{IsReady, err_list, err_entries_lem}
use recd.Server.Delivery.{IsReady-core, IsReady-note_desynch}

abbrev pub lengths : List (List SampleData) → List ℕ
lengths = map length

-- The next plugin leaves the list as it is, as the recorder does, or clears it, as a null plugin does.
abbrev pub keeps : List SampleData → List SampleData
keeps ls = ls

abbrev pub clears : List SampleData → List SampleData
clears ls = []

-- `n` lists: `n` times the length that follows from the length `k * channels` before.
abbrev grown : ℕ → ℕ → ℕ → List ℕ
grown channels k n = tabulate n (k + 1) (λ j. j * channels)

-- One round with a next plugin, for a ready server.
put : Server → List SampleData → Server
put s ls = record s { delivered = s.delivered ++ (ls ∷ []) }

put-IsReady : (s : Server) (ls : List SampleData) → IsReady s → IsReady (put s ls)
unfolding put
put-IsReady s ls v = IsReady-core (put s ls) s refl v

lengths-put :
    (s : Server) (ls : List SampleData)
    → lengths (put s ls).delivered ≡ lengths s.delivered ++ (length ls ∷ [])
unfolding put
lengths-put s ls = map-append _ s.delivered (ls ∷ [])

send_errs-suc :
    (next : List SampleData → List SampleData) (n : ℕ) (s : Server) (ls : List SampleData)
    → IsReady s
    → send_errs (some next) (suc n) s ls
      ≡ send_errs (some next) n (put s (ls ++ err_list s)) (next (ls ++ err_list s))
unfolding send_errs put_data put
send_errs-suc next n s ls v = rw (err_entries_lem s v)

send_errs-zero :
    (next : List SampleData → List SampleData) (s : Server) (ls : List SampleData) (s' : Server)
    → send_errs (some next) 0 s ls ≡ some s'
    → s ≡ s'
unfolding send_errs
send_errs-zero next s ls s' e = some-eq e

length-err_list :
    (s : Server) (ls : List SampleData) → length (ls ++ err_list s) ≡ length ls + s.channels
length-err_list s ls =
    length-append ls (err_list s) ∙ ap (λ n. length ls + n) (length-tabulate s.channels 0 _)

send_errs_grow :
    (n k : ℕ) (s : Server) (ls : List SampleData) (s' : Server)
    → IsReady s
    → length ls ≡ k * s.channels
    → send_errs (some keeps) n s ls ≡ some s'
    → lengths s'.delivered ≡ lengths s.delivered ++ grown s.channels k n
unfolding put
send_errs_grow zero k s ls s' v e sent =
    ap (λ (t : Server). lengths t.delivered) (sym (send_errs-zero keeps s ls s' sent))
    ∙ sym (append-nil _)
send_errs_grow (suc n) k s ls s' v e sent =
    send_errs_grow n (k + 1) (put s (ls ++ err_list s)) (ls ++ err_list s) s'
      (put-IsReady s (ls ++ err_list s) v) longer (sym (send_errs-suc keeps n s ls v) ∙ sent)
    ∙ ap (λ l. l ++ grown s.channels (k + 1) n) (lengths-put s (ls ++ err_list s))
    ∙ append_assoc (lengths s.delivered) (length (ls ++ err_list s) ∷ [])
        (grown s.channels (k + 1) n)
    ∙ ap (λ m. lengths s.delivered ++ (m ∷ grown s.channels (k + 1) n)) longer
  where
    longer : length (ls ++ err_list s) ≡ (k + 1) * s.channels
    longer = omega (arith, length-err_list s ls, e)

send_errs_clear :
    (n : ℕ) (s s' : Server)
    → IsReady s
    → send_errs (some clears) n s [] ≡ some s'
    → lengths s'.delivered ≡ lengths s.delivered ++ tabulate n 1 (λ j. s.channels)
unfolding put
send_errs_clear n s s' v sent = go n 1 s v sent
  where
    go :
        (n i : ℕ) (t : Server)
        → IsReady t
        → send_errs (some clears) n t [] ≡ some s'
        → lengths s'.delivered ≡ lengths t.delivered ++ tabulate n i (λ j. t.channels)
    go zero i t w q =
        ap (λ (t : Server). lengths t.delivered) (sym (send_errs-zero clears t [] s' q))
        ∙ sym (append-nil _)
    go (suc n) i t w q =
        go n (i + 1) (put t (err_list t)) (put-IsReady t (err_list t) w)
          (sym (send_errs-suc clears n t [] w) ∙ q)
        ∙ ap (λ l. l ++ tabulate n (i + 1) (λ j. t.channels)) (lengths-put t (err_list t))
        ∙ append_assoc (lengths t.delivered) (length (err_list t) ∷ [])
            (tabulate n (i + 1) (λ j. t.channels))
        ∙ ap (λ m. lengths t.delivered ++ (m ∷ tabulate n (i + 1) (λ j. t.channels)))
            (length-err_list t [] ∙ add.zero t.channels)

-- A frame out of sequence, after the first such frame, with `n` frames lost (as an `int`; none if negative):
-- the next plugin is given `n` lists. If it clears each list, each has one entry for each channel; if
-- it leaves the list as it is, the first has one entry for each channel, the second two, and so on.
pub lengths-on_desynch :
    (s t u : Server) (udp : Frame)
    → IsReady s
    → s.conn_info.onetime_synch ≡ true
    → on_desynch (some clears) s udp ≡ some t
    → on_desynch (some keeps) s udp ≡ some u
    → let n = rounds (sub_u32 udp.counter s.conn_info.paket_counter) in
      (lengths t.delivered ≡ lengths s.delivered ++ tabulate n 1 (λ k. s.channels))
      × (lengths u.delivered ≡ lengths s.delivered ++ tabulate n 1 (λ k. k * s.channels))
unfolding on_desynch note_desynch
lengths-on_desynch s t u udp v again cleared kept = (
  send_errs_clear _ (note_desynch s udp) t w (sym (if-true _ _ again) ∙ cleared),
  send_errs_grow _ 0 (note_desynch s udp) [] u w (omega arith) (sym (if-true _ _ again) ∙ kept),
)
  where
    w : IsReady (note_desynch s udp)
    w = IsReady-note_desynch s udp v
