-- ===== src/TcpServer/Segments.antt =====
-- The loop around `read` of udp-streamer/tcp-server.cpp does not depend on how the stream is cut into segments.
use mathlib.Core.Path.{ap₂}
use recd.Common.{
  nothing_over, length-take, ℕ, ◌+◌, ◌-◌, ◌≤◌, ◌<◌, ◌≡◌, refl, sym, ap, ◌∙◌, some, List, [], ◌∷◌,
  ◌++◌, map, append-nil, append_assoc, arith, length, take, drop, length-append, length-drop,
  take_all, take-append_le, take-append_ge, drop-append_le, drop-append_ge, ltb, leb, Bool-cases,
  if-true, if-false, inl, inr,
}
use recd.Writer.Files.{concat}
use recd.TcpServer.{Arrival, got, hangs_up, fails, fill, put_bytes}

put_bytes-append :
    (pre post bs : List ℕ)
    → put_bytes (pre ++ post) (length pre) bs ≡ (pre ++ bs) ++ drop (length bs) post
unfolding put_bytes
put_bytes-append pre post bs =
    rw (take_all pre post, drop-append_ge (length bs) pre post)
      (sym (append_assoc pre bs (drop (length bs) post)))

-- What the loop does with the stream: the frame's first bytes are `pre`.
pub record Filled (SIZE : ℕ) (segments : List (List ℕ)) (pre post : List ℕ) : Type 0 where
  pub rest : List (List ℕ)
  pub filled :
      fill SIZE (map got segments) (length pre) (pre ++ post)
      ≡ some (pre ++ take (length post) (concat segments), map got rest)
  pub left : concat rest ≡ drop (length post) (concat segments)

pub fill_full :
    (SIZE : ℕ) (arrivals : List Arrival) (len : ℕ) (b : List ℕ)
    → SIZE ≤ len
    → fill SIZE arrivals len b ≡ some (b, arrivals)
unfolding fill
fill_full SIZE [] len b h = if-true {b = leb SIZE len} _ _ (ground arith)
fill_full SIZE (got bs ∷ rest) len b h = if-true {b = leb SIZE len} _ _ (ground arith)
fill_full SIZE (hangs_up ∷ rest) len b h = if-true {b = leb SIZE len} _ _ (ground arith)
fill_full SIZE (fails ∷ rest) len b h = if-true {b = leb SIZE len} _ _ (ground arith)

-- The segment that ends the frame.
pub fill_last :
    (SIZE : ℕ) (bs : List ℕ) (rest : List Arrival) (len : ℕ) (b : List ℕ)
    → len < SIZE
    → SIZE - len < length bs
    → fill SIZE (got bs ∷ rest) len b
      ≡ some (put_bytes b len (take (SIZE - len) bs), got (drop (SIZE - len) bs) ∷ rest)
unfolding fill
fill_last SIZE bs rest len b h k =
    if-false {b = leb SIZE len} _ _ (ground arith)
    ∙ if-true {b = ltb (SIZE - len) (length bs)} _ _ (ground arith)

pub fill_more :
    (SIZE : ℕ) (bs : List ℕ) (rest : List Arrival) (len : ℕ) (b : List ℕ)
    → len < SIZE
    → length bs ≤ SIZE - len
    → fill SIZE (got bs ∷ rest) len b ≡ fill SIZE rest (len + length bs) (put_bytes b len bs)
unfolding fill
fill_more SIZE bs rest len b h k =
    if-false {b = leb SIZE len} _ _ (ground arith)
    ∙ if-false {b = ltb (SIZE - len) (length bs)} _ _ (ground arith)

full_lem :
    (SIZE : ℕ) (segments : List (List ℕ)) (pre : List ℕ)
    → length pre ≡ SIZE
    → Filled SIZE segments pre []
full_lem SIZE segments pre e = record {
  rest = segments;
  filled = fill_full SIZE (map got segments) (length pre) (pre ++ []) (omega (arith, e));
  left = refl;
}

last_lem :
    (SIZE : ℕ) (bs : List ℕ) (segments : List (List ℕ)) (pre post : List ℕ)
    → length pre + length post ≡ SIZE
    → 0 < length post
    → length post < length bs
    → Filled SIZE (bs ∷ segments) pre post
unfolding concat
last_lem SIZE bs segments pre post e h k = record {
  rest = drop (length post) bs ∷ segments;
  filled =
      fill_last SIZE bs (map got segments) (length pre) (pre ++ post) (omega arith) (omega arith)
      ∙ ap
          (λ n.
            some (
              put_bytes (pre ++ post) (length pre) (take n bs),
              got (drop n bs) ∷ map got segments,
            ))
          room
      ∙ ap (λ b. some (b, got (drop (length post) bs) ∷ map got segments)) bytes;
  left = sym (drop-append_le (length post) bs (concat segments) (omega arith));
}
  where
    room : SIZE - length pre ≡ length post
    room = omega arith

    cut : List ℕ
    cut = take (length post) bs

    none_over : drop (length cut) post ≡ []
    none_over =
        nothing_over (length cut) post (omega (arith, length-take (length post) bs (omega arith)))

    bytes :
        put_bytes (pre ++ post) (length pre) cut ≡ pre ++ take (length post) (bs ++ concat segments)
    bytes =
        put_bytes-append pre post cut
        ∙ ap (λ l. (pre ++ cut) ++ l) none_over
        ∙ append-nil (pre ++ cut)
        ∙ ap (λ l. pre ++ l) (sym (take-append_le (length post) bs (concat segments) (omega arith)))

more_lem :
    (SIZE : ℕ) (bs : List ℕ) (segments : List (List ℕ)) (pre post : List ℕ)
    → length pre + length post ≡ SIZE
    → 0 < length post
    → length bs ≤ length post
    → Filled SIZE segments (pre ++ bs) (drop (length bs) post)
    → Filled SIZE (bs ∷ segments) pre post
unfolding concat
more_lem SIZE bs segments pre post e h k f = record {
  rest = f.rest;
  filled =
      fill_more SIZE bs (map got segments) (length pre) (pre ++ post) (omega arith) (omega arith)
      ∙ ap₂ (fill SIZE (map got segments)) (sym (length-append pre bs))
          (put_bytes-append pre post bs)
      ∙ f.filled
      ∙ ap (λ b. some (b, map got f.rest)) bytes;
  left =
      f.left
      ∙ ap (λ n. drop n (concat segments)) (length-drop (length bs) post)
      ∙ sym (drop-append_ge (length post - length bs) bs (concat segments))
      ∙ ap (λ n. drop n (bs ++ concat segments)) whole;
}
  where
    whole : length bs + (length post - length bs) ≡ length post
    whole = omega arith

    bytes :
        (pre ++ bs) ++ take (length (drop (length bs) post)) (concat segments)
        ≡ pre ++ take (length post) (bs ++ concat segments)
    bytes =
        append_assoc pre bs _
        ∙ ap (λ n. pre ++ (bs ++ take n (concat segments))) (length-drop (length bs) post)
        ∙ ap (λ l. pre ++ l) (sym (take-append_ge (length post - length bs) bs (concat segments)))
        ∙ ap (λ n. pre ++ take n (bs ++ concat segments)) whole

fill_lem :
    (SIZE : ℕ) (segments : List (List ℕ)) (pre post : List ℕ)
    → length pre + length post ≡ SIZE
    → length post ≤ length (concat segments)
    → Filled SIZE segments pre post
unfolding concat
fill_lem SIZE segments pre [] e h = full_lem SIZE segments pre (omega (arith, e))
fill_lem SIZE [] pre (p ∷ post) e h = absurd (omega arith)
fill_lem SIZE (bs ∷ segments) pre (p ∷ post) e h =
    elim (Bool-cases (ltb (length (p ∷ post)) (length bs))) [
      | inl ends ↦ last_lem SIZE bs segments pre (p ∷ post) e (omega arith) (ground arith)
      | inr goes_on ↦
          let short : length bs ≤ length (p ∷ post) = ground arith in
          more_lem SIZE bs segments pre (p ∷ post) e (omega arith) short (
            fill_lem SIZE segments (pre ++ bs) (drop (length bs) (p ∷ post))
              (omega (arith, length-append pre bs, length-drop (length bs) (p ∷ post), short))
              (omega
                (arith, length-append bs (concat segments), length-drop (length bs) (p ∷ post))))
    ]

-- However the stream is cut: when at least as many bytes as a frame has arrive, the loop ends with the first ones of
-- them, whatever was in the frame before, and leaves the others.
pub fill-segments :
    (SIZE : ℕ) (segments : List (List ℕ)) (b : List ℕ)
    → length b ≡ SIZE
    → SIZE ≤ length (concat segments)
    → (rest : List (List ℕ)) × (fill SIZE (map got segments) 0 b
        ≡ some (take SIZE (concat segments), map got rest))
      × (concat rest ≡ drop SIZE (concat segments))
fill-segments SIZE segments b e h =
    let f = fill_lem SIZE segments [] b (omega (arith, e)) (omega (arith, e, h)) in
    (
      f.rest,
      f.filled ∙ ap (λ n. some (take n (concat segments), map got f.rest)) e,
      f.left ∙ ap (λ n. drop n (concat segments)) e,
    )
