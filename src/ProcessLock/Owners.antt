-- ===== src/ProcessLock/Owners.antt =====
-- crates/drv-thru/src/process_lock.rs: the text of an owner, read again.
use drv_thru.Base.{
  ℕ, zero, suc, ◌^◌, ◌<◌, ◌≡◌, ◌↔◌, refl, sym, ap, subst, ◌∙◌, true, false, List, [], ◌∷◌, ◌++◌,
  Option, none, some, arith, Bool-cases, inl, inr, All, All-append, All-map, reverse, reverse-cons,
}
use drv_thru.Text.{
  Text, is_whitespace, is_ascii_digit, has_char, split_whitespace, words_from, close_word,
  to_digits, text_eq,
}
use drv_thru.Text.Trim.{NoBlank, trim-NoBlank}
use drv_thru.Text.Prefix.{text_eq_iff}
use drv_thru.Text.Splitting.{split_once-append}
use drv_thru.Text.Decimal.{to_digits-All, parse_unsigned-to_digits}
use drv_thru.ProcessLock.{
  Processes, nth, start_field, start_of_stat, after_comm, process_start_time, owner_text,
  current_owner_text, parse_owner, lives, owner_is_live, same_start,
}

reverse-NoBlank : (s : Text) → NoBlank s → NoBlank (reverse s)
reverse-NoBlank [] h = tt
reverse-NoBlank (c ∷ s) (e, h) =
    subst NoBlank (sym (reverse-cons c s))
      (All-append _ (reverse s) (c ∷ []) (reverse-NoBlank s h) (e, tt))

close_word-NoBlank :
    (word : Text) (words : List Text)
    → NoBlank word
    → All NoBlank words
    → All NoBlank (close_word word words)
close_word-NoBlank [] words h k = k
close_word-NoBlank (c ∷ w) words h k = (reverse-NoBlank (c ∷ w) h, k)

-- No word has a blank.
words_from-NoBlank : (word s : Text) → NoBlank word → All NoBlank (words_from word s)
unfolding words_from
words_from-NoBlank word [] h = close_word-NoBlank word [] h tt
words_from-NoBlank word (c ∷ s) h = elim (Bool-cases (is_whitespace c)) [
  | inl e ↦ rw e (close_word-NoBlank word (words_from [] s) h (words_from-NoBlank [] s tt))
  | inr e ↦ rw e (words_from-NoBlank (c ∷ word) s (e, h))
]

nth-All :
    (n : ℕ) (words : List Text) (word : Text)
    → All NoBlank words
    → nth n words ≡ some word
    → NoBlank word
unfolding nth
nth-All n [] word h e = ground arith
nth-All zero (w ∷ words) word (p, h) e = subst NoBlank (some-same e) p
  where
    some-same : {a b : Text} → ◌≡◌ {A = Option Text} (some a) (some b) → a ≡ b
    some-same same = cc
nth-All (suc n) (w ∷ words) word (p, h) e = nth-All n words word h e

start-NoBlank :
    (processes : Processes) (pid : ℕ) (start_time : Text)
    → process_start_time processes pid ≡ some start_time
    → NoBlank start_time
unfolding process_start_time split_whitespace
start-NoBlank processes pid start_time e = from_stat (processes pid) e
  where
    from_fields : (fields : Option Text) → start_field fields ≡ some start_time → NoBlank start_time
    from_fields none h = ground arith
    from_fields (some fields) h =
        nth-All 19 (words_from [] fields) start_time (words_from-NoBlank [] fields tt) h

    from_stat : (stat : Option Text) → start_of_stat stat ≡ some start_time → NoBlank start_time
    from_stat none h = ground arith
    from_stat (some stat) h = from_fields (after_comm stat) h

digits-NoBlank : (s : Text) → All (λ c. is_ascii_digit c ≡ true) s → NoBlank s
unfolding is_whitespace
digits-NoBlank s h = All-map _ _ not_blank s h
  where
    not_blank : (c : ℕ) → is_ascii_digit c ≡ true → is_whitespace c ≡ false
    not_blank c e = ground arith

digits-no_colon : (s : Text) → All (λ c. is_ascii_digit c ≡ true) s → has_char b':' s ≡ false
unfolding has_char
digits-no_colon [] h = refl
digits-no_colon (c ∷ s) (e, h) = ground (arith, digits-no_colon s h)

text_eq-Bool : (s t : Text) → (text_eq s t ≡ true) ↔ (◌≡◌ {A = Option Text} (some t) (some s))
text_eq-Bool s t =
    (λ h. ap some (sym ((text_eq_iff s t).0 h)), λ h. (text_eq_iff s t).1 (sym (some-same h)))
  where
    some-same : {a b : Text} → ◌≡◌ {A = Option Text} (some a) (some b) → a ≡ b
    some-same same = cc

same_start_iff :
    (start_time : Text) (current : Option Text)
    → (same_start (some start_time) current ≡ true) ↔ (current ≡ some start_time)
same_start_iff start_time none = (λ h. ground arith, λ h. ground arith)
same_start_iff start_time (some current) = text_eq-Bool start_time current

-- The owner that a lock text names.
parse_owner-owner_text :
    (pid : ℕ) (start_time : Text)
    → pid < 2 ^ 32
    → NoBlank start_time
    → parse_owner (owner_text pid (some start_time))
      ≡ some (record { pid = pid; start_time = some start_time })
unfolding parse_owner
parse_owner-owner_text pid start_time h plain =
    let digits = to_digits-All pid in
    let whole : NoBlank (to_digits pid ++ b':' ∷ start_time) =
      All-append _ (to_digits pid) (b':' ∷ start_time) (digits-NoBlank (to_digits pid) digits)
        (colon, plain) in
    rw
      (
        trim-NoBlank (to_digits pid ++ b':' ∷ start_time) whole,
        split_once-append b':' (to_digits pid) start_time (digits-no_colon (to_digits pid) digits),
        parse_unsigned-to_digits 32 pid h,
      )
      refl
  where
    colon : is_whitespace b':' ≡ false
    colon = ground arith

-- The lock text of a process, whose id fits into 32 bits and whose start time can be read, counts as
-- live exactly while a process of this id with this start time runs: the text is read back, and an id
-- that is used again by a later process is told apart.
pub owner_is_live-current_owner_text :
    (before now : Processes) (pid : ℕ) (start_time : Text)
    → pid < 2 ^ 32
    → process_start_time before pid ≡ some start_time
    → (owner_is_live now (current_owner_text before pid) ≡ true)
      ↔ (process_start_time now pid ≡ some start_time)
unfolding owner_is_live current_owner_text
owner_is_live-current_owner_text before now pid start_time h e =
    let plain = start-NoBlank before pid start_time e in
    let read =
      ap (λ t. lives now (parse_owner (owner_text pid t))) e
      ∙ ap (lives now) (parse_owner-owner_text pid start_time h plain) in
    let same = same_start_iff start_time (process_start_time now pid) in
    (λ l. same.0 (sym read ∙ l), λ s. read ∙ same.1 s)
