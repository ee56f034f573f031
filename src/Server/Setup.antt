-- ===== src/Server/Setup.antt =====
-- Server::init of udp-streamer/server.cpp: the frame layout, the error frame, the peek options and the transport, from
-- the configuration. QString::toInt is Qt's: a parameter that gives the bit pattern of the int, or none where
-- it reports a failure (it then returns 0).
use Prim.Native.String.{String}
use text.Mathlib.Text.{◌==◌ as str_eq}
use mathlib.Core.Option
use Prim.Native.Nat.add
use recd.Common.{
  ℕ, zero, suc, ◌+◌, ◌*◌, ◌%◌, ◌^◌, ◌≡◌, ◌<◌, ◌≤◌, refl, sym, ap, ◌∙◌, Bool, true, false, Option,
  none, some, List, [], ◌∷◌, ◌++◌, ◌==◌, if◌then◌else◌, ◌>>=◌, ◌||◌, ltb, leb, if-true, if-false,
  arith, length, set, replicate, drop, Bool-cases, inl, inr,
}
use recd.Config.{MPair, Tags, get_attrib_pair_from_tag}

-- A store `a[i] = v`; `none` is a store outside the array.
abbrev store : List ℕ → ℕ → ℕ → Option (List ℕ)
store a i v = if ltb i (length a) then some (set a i v) else none

-- `for(unsigned j=0; j < m_channels; ++j) err_udp.data[i * m_channels + j] = 32000;`, `n` rounds left.
pub fill_channels : ℕ → ℕ → ℕ → ℕ → List ℕ → Option (List ℕ)
fill_channels channels i zero j err = some err
fill_channels channels i (suc n) j err =
    store err (i * channels + j) 32000 >>= λ err'. fill_channels channels i n (j + 1) err'

-- `for(unsigned i=0; i < m_smplPerChan; ++i)` around it.
pub fill_samples : ℕ → ℕ → ℕ → List ℕ → Option (List ℕ)
fill_samples channels zero i err = some err
fill_samples channels (suc n) i err =
    fill_channels channels i channels 0 err >>= λ err'. fill_samples channels n (i + 1) err'

pub record Layout : Type 0 where
  pub single_file : Bool
  pub smpl_per_chan : ℕ
  pub channels : ℕ
  pub err_udp : List ℕ

module _ (to_int : String → Option ℕ) where
  unfoldable pub parse_or : String → ℕ → ℕ
  parse_or text fallback = elim (to_int text) [ none ↦ fallback | some n ↦ n ]

  pub init_single_file : MPair → Bool
  init_single_file files =
      if str_eq files.type1 "" then true else (if parse_or files.type2 0 == 1 then true else false)

  unfoldable pub init_smpl_per_chan : MPair → ℕ
  init_smpl_per_chan smpls = if str_eq smpls.type1 "" then 16 else parse_or smpls.type2 16

  -- `m_channels` is unsigned, so that a negative number is above 127.
  unfoldable pub init_channels : MPair → ℕ
  init_channels chans =
      if str_eq chans.type1 ""
      then 1
      else elim (to_int chans.type2) [ none ↦ 1 | some n ↦ if ltb 127 n || n == 0 then 1 else n ]

  -- The peek options before and after: on or off, and the size.
  pub init_peek : Bool × ℕ → MPair → MPair → Bool × ℕ
  init_peek (on, size) peek_on peek_size = (
    if str_eq peek_on.type1 ""
        then on
        else (str_eq peek_on.type2 "true" || (str_eq peek_on.type2 "enabled" || on)),
    if str_eq peek_size.type1 "" then size else parse_or peek_size.type2 10,
  )

  -- `m_port`, which keeps the value it had where the configuration names no port.
  pub init_port : ℕ → MPair → ℕ
  init_port old port = if str_eq port.type1 "" then old else parse_or port.type2 1234 % 2 ^ 16

  -- The first two blocks of `init`, with the error frame `{0,{0},{0}, 0}` before them.
  pub init_layout : MPair → Tags → Option Layout
  init_layout none_pair tags =
      let (files, tags1) = get_attrib_pair_from_tag none_pair tags "Record" "files" in
      let (chans, tags2) = get_attrib_pair_from_tag none_pair tags1 "FrameData" "channels" in
      let (smpls, tags3) = get_attrib_pair_from_tag none_pair tags2 "FrameData" "samplesPerChan" in
      let channels = init_channels chans in
      let per = init_smpl_per_chan smpls in
      fill_samples channels per 0 (replicate 512 0) >>= λ err. some (record {
        single_file = init_single_file files;
        smpl_per_chan = per;
        channels = channels;
        err_udp = err;
      })

map-if {ℓ κ ι} :
    {A : Type ℓ} {B : Type κ} {C : Type ι} (b : Bool) (a : A) (f : A → B) (g : B → C)
    → Option.map g ((if b then some a else none) >>= λ x. some (f x))
      ≡ (if b then some (g (f a)) else none)
map-if true a f g = refl
map-if false a f g = refl

-- The first `k` entries are 32000.
abbrev paint : ℕ → List ℕ → List ℕ
paint k ys = replicate k 32000 ++ drop k ys

length-paint : (k : ℕ) (ys : List ℕ) → k ≤ length ys → length (paint k ys) ≡ length ys
length-paint zero ys h = refl
length-paint (suc k) [] h = absurd (omega arith)
length-paint (suc k) (y ∷ ys) h = ap suc (length-paint k ys (omega arith))

set-paint : (k : ℕ) (ys : List ℕ) → k < length ys → set (paint k ys) k 32000 ≡ paint (suc k) ys
set-paint k [] h = absurd (omega arith)
set-paint zero (y ∷ ys) h = refl
set-paint (suc k) (y ∷ ys) h = ap (λ l. 32000 ∷ l) (set-paint k ys (omega arith))

-- Filling up to a position: done, or outside the array.
abbrev painted : ℕ → List ℕ → Option (List ℕ)
painted k ys = if leb k (length ys) then some (paint k ys) else none

painted_in : (p q : ℕ) (ys : List ℕ) → p ≡ q → q ≤ length ys → some (paint p ys) ≡ painted q ys
painted_in p q ys e h =
    ap (λ k. some (paint k ys)) e ∙ sym (if-true {b = leb q (length ys)} _ _ (ground arith))

fill_channels_lem :
    (channels i n j p q : ℕ) (ys : List ℕ)
    → i * channels + j ≡ p
    → p + n ≡ q
    → p ≤ length ys
    → fill_channels channels i n j (paint p ys) ≡ painted q ys
unfolding fill_channels
fill_channels_lem channels i zero j p q ys e f h = painted_in p q ys (omega arith) (omega arith)
fill_channels_lem channels i (suc n) j p q ys e f h = elim (Bool-cases (ltb p (length ys))) [
  | inl inside ↦
      rw (e, length-paint p ys h, inside, set-paint p ys (ground arith))
        (fill_channels_lem channels i n (j + 1) (suc p) q ys (omega arith) (omega arith)
          (ground arith))
  | inr outside ↦
      rw (e, length-paint p ys h, outside)
        (sym (if-false {b = leb q (length ys)} _ _ (ground arith)))
]

fill_samples_lem :
    (channels n i p q : ℕ) (ys : List ℕ)
    → i * channels ≡ p
    → (i + n) * channels ≡ q
    → p ≤ length ys
    → fill_samples channels n i (paint p ys) ≡ painted q ys
unfolding fill_samples
fill_samples_lem channels zero i p q ys e f h =
    painted_in p q ys (omega (arith, f, e)) (omega (arith, f, e))
fill_samples_lem channels (suc n) i p q ys e f h =
    elim (Bool-cases (leb (p + channels) (length ys))) [
      | inl inside ↦
          rw
            (
              fill_channels_lem channels i channels 0 p (p + channels) ys (omega arith) refl h,
              inside,
            )
            (fill_samples_lem channels n (i + 1) (p + channels) q ys (omega arith)
              (omega (arith, f)) (ground arith))
      | inr outside ↦
          rw
            (
              fill_channels_lem channels i channels 0 p (p + channels) ys (omega arith) refl h,
              outside,
            )
            (sym (if-false _ _ (past (ground arith))))
    ]
  where
    past : length ys < p + channels → leb q (length ys) ≡ false
    past o = let beyond : length ys < q = omega (arith, e, f) in ground arith

module _ (to_int : String → Option ℕ) where
  -- The layout that a configuration asks for, as far as it is read from the attributes.
  abbrev pub asked_channels : MPair → Tags → ℕ
  asked_channels none_pair tags =
      init_channels to_int
        (get_attrib_pair_from_tag none_pair
          (get_attrib_pair_from_tag none_pair tags "Record" "files").1 "FrameData" "channels").0

  abbrev pub asked_per_chan : MPair → Tags → ℕ
  asked_per_chan none_pair tags =
      init_smpl_per_chan to_int
        (get_attrib_pair_from_tag none_pair
          (get_attrib_pair_from_tag none_pair
            (get_attrib_pair_from_tag none_pair tags "Record" "files").1 "FrameData" "channels").1
          "FrameData" "samplesPerChan").0

  channels_range :
      (chans : MPair) → (0 < init_channels to_int chans) × (init_channels to_int chans ≤ 127)
  unfolding init_channels
  channels_range chans = ground arith

  -- Whatever the configuration says, and whatever stands for a missing attribute, the number of channels is between 1 and
  -- 127. The frame layout can be set up exactly if all samples of all channels fit in the 512 of the error frame; then
  -- that frame holds 32000 in each of them and 0 behind them, and otherwise `init` stores outside its array.
  pub init_layout_lem :
      (none_pair : MPair) (tags : Tags)
      → let channels = asked_channels none_pair tags in
        let total = asked_per_chan none_pair tags * channels in
        (0 < channels)
        × (channels ≤ 127)
        × (Option.map (λ (l : Layout). l.err_udp) (init_layout to_int none_pair tags) ≡ (
            if leb total 512
            then some (replicate total 32000 ++ drop total (replicate 512 0))
            else none))
  unfolding init_layout
  init_layout_lem none_pair tags = (
    (channels_range _).0,
    (channels_range _).1,
    rw
        (
          fill_samples_lem (asked_channels none_pair tags) (asked_per_chan none_pair tags) 0 0 _
              (replicate 512 0) (omega arith) refl (omega arith),
          add.zero,
        )
        (map-if (leb (asked_per_chan none_pair tags * asked_channels none_pair tags) 512) _ _ _),
  )
