-- ===== src/ImportHelper/Urls.antt =====
-- crates/drv-thru/src/import_helper.rs: which URLs of a cache are accepted.
use drv_thru.Base.{
  ℕ, ◌^◌, ◌<◌, ◌≡◌, ◌≢◌, ◌↔◌, ◌⊎◌, inl, inr, refl, sym, ap, ◌∙◌, subst, true, false, not, [], ◌∷◌,
  ◌++◌, Option, none, some, ok, bail_if, context, arith, All, all, all-All, All-all, All-map,
  All-append, >>=-eq-ok, >>-eq-ok, bail_if-eq-ok, ◌==◌,
}
use drv_thru.Text.{
  Text, codes, text_eq, trim, strip_prefix, has_char, is_ascii_digit, is_whitespace, parse_unsigned,
  parse_digits,
}
use drv_thru.Text.Trim.{NoBlank, trim-NoBlank}
use drv_thru.Text.Prefix.{text_eq_self, strip_prefix-eq-append}
use drv_thru.Config.Numbers.{IsDigit, decimal, parse_digits_lem}
use drv_thru.ImportHelper.{
  no_port, port_range, not_origin, url_whitespace, nonzero_port, validate_port, not_authority,
  check_ipv6, check_host, check_authority, validate_loopback_http_url,
}

-- A port: decimal digits of a number from 1 to 65535.
abbrev pub IsPort : Text → Type 0
IsPort s = All IsDigit s × (s ≢ []) × (0 < decimal 0 s) × (decimal 0 s < 2 ^ 16)

abbrev pub IsLoopback : Text → Type 0
IsLoopback host = (host ≡ codes "127.0.0.1:") ⊎ (host ≡ codes "[::1]:")

-- An HTTP origin on this machine, and nothing behind it.
abbrev pub LoopbackOrigin : Text → Type 0
LoopbackOrigin url =
    (host : Text) × (port : Text) × (url ≡ codes "http://" ++ (host ++ port))
    × IsLoopback host
    × IsPort port

parse_unsigned-digits :
    (w : ℕ) (s : Text) → All IsDigit s → s ≢ [] → parse_unsigned w s ≡ parse_digits (2 ^ w) 0 s
unfolding parse_unsigned
parse_unsigned-digits w [] d n = absurd (n refl)
parse_unsigned-digits w (c ∷ []) (e, d) n = ground arith
parse_unsigned-digits w (c ∷ c' ∷ s) (e, d) n = ground arith

validate_port-IsPort : (s : Text) → validate_port s ≡ ok tt → IsPort s
unfolding validate_port
validate_port-IsPort [] h = absurd (ground arith)
validate_port-IsPort (c ∷ s) h =
    let (digits, h1) = >>-eq-ok (bail_if (not (all is_ascii_digit (c ∷ s))) no_port) _ h in
    let (n, e, h2) = >>=-eq-ok (context (parse_unsigned 16 (c ∷ s)) port_range) nonzero_port h1 in
    let is_all : all is_ascii_digit (c ∷ s) ≡ true =
      ground (arith, bail_if-eq-ok _ no_port digits) in
    let d : All IsDigit (c ∷ s) = all-All is_ascii_digit (c ∷ s) is_all in
    let full : c ∷ s ≢ [] = λ x. ground arith in
    let parsed =
      parse_unsigned-digits 16 (c ∷ s) d full
      ∙ parse_digits_lem (2 ^ 16) 0 (c ∷ s) d (omega arith) in
    (d, full, ground (arith, parsed), ground (arith, parsed))

IsPort-validate_port : (s : Text) → IsPort s → validate_port s ≡ ok tt
unfolding validate_port
IsPort-validate_port [] (d, n, l, u) = absurd (n refl)
IsPort-validate_port (c ∷ s) (d, n, l, u) =
    let parsed =
      parse_unsigned-digits 16 (c ∷ s) d n ∙ parse_digits_lem (2 ^ 16) 0 (c ∷ s) d (omega arith) in
    ground (arith, All-all is_ascii_digit (c ∷ s) d, parsed)

check_ipv6-IsPort :
    (authority : Text) (o : Option Text)
    → strip_prefix (codes "[::1]:") authority ≡ o
    → check_ipv6 o ≡ ok tt
    → (port : Text) × (authority ≡ codes "[::1]:" ++ port) × IsPort port
check_ipv6-IsPort authority none e h = cc
check_ipv6-IsPort authority (some port) e h =
    (port, strip_prefix-eq-append (codes "[::1]:") authority port e, validate_port-IsPort port h)

check_host-parts :
    (authority : Text) (o : Option Text)
    → strip_prefix (codes "127.0.0.1:") authority ≡ o
    → check_host authority o ≡ ok tt
    → (host : Text) × (port : Text) × (authority ≡ host ++ port) × IsLoopback host × IsPort port
check_host-parts authority none e h =
    let (port, shape, is_port) = check_ipv6-IsPort authority _ refl h in
    (codes "[::1]:", port, shape, inr refl, is_port)
check_host-parts authority (some port) e h = (
  codes "127.0.0.1:",
  port,
  strip_prefix-eq-append (codes "127.0.0.1:") authority port e,
  inl refl,
  validate_port-IsPort port h,
)

check_authority-LoopbackOrigin :
    (url : Text) (o : Option Text)
    → strip_prefix (codes "http://") url ≡ o
    → check_authority o ≡ ok tt
    → LoopbackOrigin url
check_authority-LoopbackOrigin url none e h = cc
check_authority-LoopbackOrigin url (some authority) e h =
    let (bare, h1) = >>-eq-ok (bail_if (not_authority authority) not_origin) _ h in
    let (host, port, shape, loopback, is_port) = check_host-parts authority _ refl h1 in
    (
      host,
      port,
      strip_prefix-eq-append (codes "http://") url authority e ∙ ap (◌++◌ (codes "http://")) shape,
      loopback,
      is_port,
    )

-- What the digits of a port are not.
digit_plain :
    (c : ℕ)
    → IsDigit c
    → (is_whitespace c ≡ false)
      × ((b'/' == c) ≡ false)
      × ((b'?' == c) ≡ false)
      × ((b'#' == c) ≡ false)
      × ((b'@' == c) ≡ false)
unfolding is_whitespace
digit_plain c h = ground arith

plain_port :
    (s : Text)
    → All IsDigit s
    → (has_char b'/' s ≡ false)
      × (has_char b'?' s ≡ false)
      × (has_char b'#' s ≡ false)
      × (has_char b'@' s ≡ false)
unfolding has_char
plain_port [] h = (refl, refl, refl, refl)
plain_port (c ∷ s) (d, h) = ground (arith, digit_plain c d, plain_port s h)

host_plain :
    (host port : Text)
    → IsLoopback host
    → IsPort port
    → (not_authority (host ++ port) ≡ false) × NoBlank (host ++ port)
unfolding has_char is_whitespace
host_plain host port (inl e) (d, n, l, u) =
    let (a, b, c, f) = plain_port port d in
    let blank = All-map _ _ (λ x h. (digit_plain x h).0) port d in
    subst (λ t. (not_authority (t ++ port) ≡ false) × NoBlank (t ++ port)) (sym e)
      (
        rw (a, b, c, f) refl,
        All-append (λ c. is_whitespace c ≡ false) (codes "127.0.0.1:") port (ground arith) blank,
      )
host_plain host port (inr e) (d, n, l, u) =
    let (a, b, c, f) = plain_port port d in
    let blank = All-map _ _ (λ x h. (digit_plain x h).0) port d in
    subst (λ t. (not_authority (t ++ port) ≡ false) × NoBlank (t ++ port)) (sym e)
      (
        rw (a, b, c, f) refl,
        All-append (λ c. is_whitespace c ≡ false) (codes "[::1]:") port (ground arith) blank,
      )

check_host-ok :
    (host port : Text)
    → IsLoopback host
    → IsPort port
    → check_host (host ++ port) (strip_prefix (codes "127.0.0.1:") (host ++ port)) ≡ ok tt
unfolding strip_prefix
check_host-ok host port (inl e) p =
    subst (λ t. check_host (t ++ port) (strip_prefix (codes "127.0.0.1:") (t ++ port)) ≡ ok tt)
      (sym e) (IsPort-validate_port port p)
check_host-ok host port (inr e) p =
    subst (λ t. check_host (t ++ port) (strip_prefix (codes "127.0.0.1:") (t ++ port)) ≡ ok tt)
      (sym e) (IsPort-validate_port port p)

http_blank : NoBlank (codes "http://")
unfolding is_whitespace
http_blank = ground arith

LoopbackOrigin-validate :
    (host port : Text)
    → IsLoopback host
    → IsPort port
    → validate_loopback_http_url (codes "http://" ++ (host ++ port)) ≡ ok tt
unfolding validate_loopback_http_url
LoopbackOrigin-validate host port loopback p =
    let url = codes "http://" ++ (host ++ port) in
    let (bare, blank) = host_plain host port loopback p in
    let whole : NoBlank url =
      All-append (λ c. is_whitespace c ≡ false) (codes "http://") (host ++ port) http_blank blank in
    rw (trim-NoBlank url whole, text_eq_self url) (rw bare (check_host-ok host port loopback p))

-- A URL is accepted exactly if it is http://, one of 127.0.0.1 and [::1], a colon and the decimal
-- digits of a port from 1 to 65535.
pub validate_loopback_iff :
    (url : Text) → (validate_loopback_http_url url ≡ ok tt) ↔ LoopbackOrigin url
unfolding validate_loopback_http_url
validate_loopback_iff url = (
  λ h.
      check_authority-LoopbackOrigin url _ refl
        (>>-eq-ok (bail_if (not (text_eq (trim url) url)) url_whitespace) _ h).1,
  λ (host, port, e, loopback, p).
      subst (λ t. validate_loopback_http_url t ≡ ok tt) (sym e)
        (LoopbackOrigin-validate host port loopback p),
)
