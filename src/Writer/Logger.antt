-- ===== src/Writer/Logger.antt =====
-- utils/logger.cpp: `Logger`, the writer that every component logs to. A text is its bytes; `to_ulong` is
-- `QString::toULong`, `date_time` what `DateTime::getDateTime` returns, and `to_bytes` the bytes of a text.
use Prim.Native.String.{String}
use text.Mathlib.Text.{◌==◌ as str_eq}
use recd.Common.{
  ℕ, ◌<◌, ◌≡◌, refl, sym, ap, ◌∙◌, Bool, true, false, ◌||◌, ◌&&◌, not, if◌then◌else◌, Option, none,
  some, [], ◌∷◌, ◌++◌, append-nil, append_assoc, arith, length, length-append, length-take_bound,
  take, ltb, ◌>>=◌, Bool-cases, if-true, if-false, inl, inr,
}
use recd.Config.{MPair, Tags, get_attrib_pair_from_tag}
use recd.Writer.{Bytes, Writer, new_writer, setup, write, start_writer, stop_writer}

pub record Logger : Type 0 where
  pub onetime : Bool
  pub writer : Writer

abbrev pub new_logger : Logger
new_logger = record { onetime = false; writer = new_writer }

-- `strcat` in an array of 512 bytes, of which the last is a zero; `none` is a write behind the array.
unfoldable pub strcat : Bytes → Bytes → Option Bytes
strcat s t = if ltb (length (s ++ t)) 512 then some (s ++ t) else none

-- A text that has to have room in the array.
unfoldable pub checked : Bytes → Option Bytes
checked s = if ltb (length s) 512 then some s else none

checked_small : (s : Bytes) → length s < 512 → checked (s ++ []) ≡ some s
unfolding checked
checked_small s h =
    rw (append-nil s) (if-true {b = ltb (length s) 512} (some s) none (ground arith))

-- A text that has no room has none with more behind it.
bind-checked : (s t : Bytes) → (checked s >>= λ f. checked (f ++ t)) ≡ checked (s ++ t)
unfolding checked
bind-checked s t = elim (Bool-cases (ltb (length s) 512)) [
  | inl fits ↦ rw fits refl
  | inr long ↦ rw long (
      sym (
        if-false {b = ltb (length (s ++ t)) 512} (some (s ++ t)) none
          (ground (arith, length-append s t))))
]

empty_or : (b : Bool) (s : Bytes) → length s < 512 → length (if b then [] else s) < 512
empty_or true s h = omega arith
empty_or false s h = h

unfoldable pub log_speed : (String → Option ℕ) → MPair → ℕ
log_speed to_ulong speed =
    if str_eq speed.type1 "" then 0 else elim (to_ulong speed.type2) [ none ↦ 1000 | some n ↦ n ]

module _ (to_bytes : String → Bytes) where
  -- `snprintf(fname, sizeof(fname), "%s/", ...)`, in both branches of `exists()`.
  unfoldable pub log_folder : MPair → Bytes
  log_folder log_dir =
      if str_eq log_dir.type1 "" then [] else take 511 (to_bytes log_dir.type2 ++ (47 ∷ []))

  unfoldable pub add_time : Bytes → MPair → Bytes → Option Bytes
  add_time date_time time fname =
      if str_eq time.type1 ""
      then some fname
      else if str_eq time.type2 "enabled" || str_eq time.type2 "true"
      then (strcat fname date_time >>= λ f. strcat f (45 ∷ []))
      else some fname

  unfoldable pub add_name : MPair → Bytes → Option Bytes
  add_name name fname =
      if str_eq name.type1 ""
      then some fname
      else if str_eq name.type2 ""
      then some fname
      else strcat fname (to_bytes name.type2)

  unfoldable pub log_name : Bytes → MPair → MPair → MPair → Option Bytes
  log_name date_time log_dir name time =
      add_time date_time time (log_folder log_dir) >>= λ f. add_name name f

  -- `init`: the result, the logger and the configuration, in which a missing tag has become an empty one.
  unfoldable pub init :
      (String → Option ℕ)
      → (Bytes → Option Bytes)
      → Bytes
      → MPair
      → Tags
      → Logger
      → Option (Bool × Logger × Tags)
  init to_ulong open_file date_time none_pair m l =
      let (log_dir, m1) = get_attrib_pair_from_tag none_pair m "Paths" "logs" in
      let (name, m2) = get_attrib_pair_from_tag none_pair m1 "Log" "name" in
      let (time, m3) = get_attrib_pair_from_tag none_pair m2 "Log" "timestamp" in
      let (speed, m4) = get_attrib_pair_from_tag none_pair m3 "Log" "speed" in
      if l.onetime
      then some (true, l, m)
      else log_name date_time log_dir name time >>= λ fname.
          let (ok, w) = setup open_file fname (log_speed to_ulong speed) l.writer in
          some (true, record { onetime = true; writer = if ok then start_writer w else w }, m4)

  -- What the configuration asks for, without the array.
  unfoldable pub time_part : Bytes → MPair → Bytes
  time_part date_time time =
      if not (str_eq time.type1 "") && (str_eq time.type2 "enabled" || str_eq time.type2 "true")
      then date_time ++ (45 ∷ [])
      else []

  unfoldable pub name_part : MPair → Bytes
  name_part name = if str_eq name.type1 "" || str_eq name.type2 "" then [] else to_bytes name.type2

  add_time_lem :
      (date_time : Bytes) (time : MPair) (f : Bytes)
      → length f < 512
      → add_time date_time time f ≡ checked (f ++ time_part date_time time)
  unfolding add_time time_part strcat checked
  add_time_lem date_time time f h = elim (Bool-cases (str_eq time.type1 "")) [
    | inl missing ↦ rw missing (sym (checked_small f h))
    | inr given ↦ elim (Bool-cases (str_eq time.type2 "enabled" || str_eq time.type2 "true")) [
      | inl on ↦
          rw (given, on)
            (bind-checked (f ++ date_time) (45 ∷ [])
              ∙ ap checked (append_assoc f date_time (45 ∷ [])))
      | inr off ↦ rw (given, off) (sym (checked_small f h))
    ]
  ]

  add_name_lem :
      (name : MPair) (f : Bytes) → length f < 512 → add_name name f ≡ checked (f ++ name_part name)
  unfolding add_name name_part strcat checked
  add_name_lem name f h = elim (Bool-cases (str_eq name.type1 "")) [
    | inl missing ↦ rw missing (sym (checked_small f h))
    | inr given ↦ elim (Bool-cases (str_eq name.type2 "")) [
      | inl empty ↦ rw (given, empty) (sym (checked_small f h))
      | inr full ↦ rw (given, full) refl
    ]
  ]

  bind-add_name :
      (name : MPair) (s : Bytes)
      → (checked s >>= λ f. add_name name f) ≡ checked (s ++ name_part name)
  unfolding checked
  bind-add_name name s = elim (Bool-cases (ltb (length s) 512)) [
    | inl fits ↦ rw fits (add_name_lem name s (ground (arith, fits)))
    | inr long ↦ rw long (
        sym (
          if-false {b = ltb (length (s ++ name_part name)) 512} (some (s ++ name_part name)) none
            (ground (arith, length-append s (name_part name)))))
  ]

  length-log_folder : (log_dir : MPair) → length (log_folder log_dir) < 512
  unfolding log_folder
  length-log_folder log_dir =
      empty_or (str_eq log_dir.type1 "") (take 511 (to_bytes log_dir.type2 ++ (47 ∷ [])))
        (omega (arith, length-take_bound 511 (to_bytes log_dir.type2 ++ (47 ∷ []))))

  -- The name of the log file is the directory, the time and the name that the configuration gives, as far as it gives
  -- them, where these have less than 512 bytes together; where they have more, a write goes behind the array.
  pub log_name_lem :
      (date_time : Bytes) (log_dir name time : MPair)
      → log_name date_time log_dir name time
        ≡ checked (log_folder log_dir ++ (time_part date_time time ++ name_part name))
  unfolding log_name
  log_name_lem date_time log_dir name time =
      ap (λ o. o >>= λ f. add_name name f)
        (add_time_lem date_time time folder (length-log_folder log_dir))
      ∙ bind-add_name name (folder ++ time_part date_time time)
      ∙ ap checked (append_assoc folder (time_part date_time time) (name_part name))
    where
      folder : Bytes
      folder = log_folder log_dir

unfoldable pub deinit : Logger → Logger
deinit l = record l { writer = stop_writer l.writer }

unfoldable pub log_message : Bytes → Logger → Logger
log_message msg l = record l { writer = write msg l.writer }
