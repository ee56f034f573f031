-- ===== src/UserServer/Answers.antt =====
-- Which lines of which socket are answered by `UserServer` of app/server.cpp.
use recd.Common.{
  ℕ, ◌≡◌, refl, sym, ap, ◌∙◌, Bool, false, if◌then◌else◌, ◌||◌, List, [], ◌∷◌, ◌++◌, map,
  append-nil, append_assoc, Bool-cases, inl, inr,
}
use recd.UserServer.{answer, is_bye, Socket, serve}

-- The lines up to the first one that says "quit", and this one.
unfoldable pub up_to_quit : List (List ℕ) → List (List ℕ)
up_to_quit [] = []
up_to_quit (line ∷ rest) =
    let after = up_to_quit rest in line ∷ (if is_bye (answer line) then [] else after)

unfoldable pub any_quit : List (List ℕ) → Bool
any_quit [] = false
any_quit (line ∷ rest) = is_bye (answer line) || any_quit rest

abbrev told : Socket → List ℕ → Socket
told k line = record k { answers = k.answers ++ (answer line ∷ []) }

-- Each line up to the first "quit" gets its answer, in order; the lines behind it are left unread, and the socket is
-- closed then and only then.
pub answers-serve :
    (lines : List (List ℕ)) (k : Socket)
    → ((serve lines k).answers ≡ k.answers ++ map answer (up_to_quit lines))
      × (lines ≡ up_to_quit lines ++ (serve lines k).lines)
      × ((serve lines k).is_up ≡ (if any_quit lines then false else k.is_up))
unfolding serve up_to_quit any_quit
answers-serve [] k = (sym (append-nil k.answers), refl, refl)
answers-serve (line ∷ rest) k = elim (Bool-cases (is_bye (answer line))) [
  | inl quit ↦ rw quit (refl, refl, refl)
  | inr other ↦ rw other (
    (answers-serve rest (told k line)).0 ∙ append_assoc k.answers (answer line ∷ []) _,
    ap (λ q. line ∷ q) (answers-serve rest (told k line)).1,
    (answers-serve rest (told k line)).2,
  )
]
