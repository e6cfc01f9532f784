-- ===== src/Main/Address/RoundTrip.antt =====
-- `parseAddress` against the way in which an address is written.
use reactivejob_operator.Prelude.{
  String, ◌≡◌, refl, ap, sym, ◌∙◌, false, none, some, if◌then◌else◌, arith, concat, has, has-concat,
  concat-nil, concat-cons, Bool-cases, inl, inr,
}
use reactivejob_operator.Prelude.Int.{ℤ}
use reactivejob_operator.Strconv.{format_int, is_digit}
use reactivejob_operator.Strconv.RoundTrip.{InRange, atoi-format_int, has-format_int}
use reactivejob_operator.Main.Address.{
  split_last, split_close, parts, checked, after_bracket, bracketed, plain, by_first, by_last,
  split_host_port, addressed, parse_address,
}

-- `net.JoinHostPort`: a host with a colon stands in brackets.
abbrev pub join_host_port : String → String → String
join_host_port host port =
    if has ":" host
    then String.◌∷◌ "[" (concat host (String.◌∷◌ "]" (String.◌∷◌ ":" port)))
    else concat host (String.◌∷◌ ":" port)

split_last-none : (s : String) → has ":" s ≡ false → split_last s ≡ none
unfolding has split_last
split_last-none String.[] h = refl
split_last-none (String.◌∷◌ c s) h = ground (arith, split_last-none s)

concat_empty : (s : String) → concat s "" ≡ s
concat_empty String.[] = concat-nil ""
concat_empty (String.◌∷◌ c s) = concat-cons c s "" ∙ ap (λ t. String.◌∷◌ c t) (concat_empty s)

split_last-concat :
    (a s x y : String) → split_last s ≡ some (x, y) → split_last (concat a s) ≡ some (concat a x, y)
unfolding split_last
split_last-concat String.[] s x y h = rw (concat-nil s, concat-nil x) h
split_last-concat (String.◌∷◌ c a) s x y h =
    rw (concat-cons c a s, concat-cons c a x) (rw (split_last-concat a s x y h) refl)

split_last-colon : (p : String) → has ":" p ≡ false → split_last (String.◌∷◌ ":" p) ≡ some ("", p)
unfolding split_last
split_last-colon p h = rw (split_last-none p h) refl

split_close-concat :
    (a s : String) → has "]" a ≡ false → split_close (concat a (String.◌∷◌ "]" s)) ≡ some (a, s)
unfolding has split_close
split_close-concat String.[] s h = rw (concat-nil (String.◌∷◌ "]" s)) refl
split_close-concat (String.◌∷◌ c a) s h =
    rw (concat-cons c a (String.◌∷◌ "]" s)) (ground (arith, split_close-concat a s, h))

-- The port's text has no delimiter.
abbrev IsPlain : String → Type 0
IsPlain s = (has ":" s ≡ false) × (has "[" s ≡ false) × (has "]" s ≡ false)

by_first-plain :
    (host t : String) (split : String × String)
    → has "[" host ≡ false
    → by_first (concat host (String.◌∷◌ ":" t)) split ≡ plain (concat host (String.◌∷◌ ":" t)) split
unfolding has
by_first-plain String.[] t split h = rw (concat-nil (String.◌∷◌ ":" t)) refl
by_first-plain (String.◌∷◌ c host) t split h =
    rw (concat-cons c host (String.◌∷◌ ":" t)) (ground arith)

checked-plain :
    (host p : String)
    → has ":" host ≡ false
    → has "[" host ≡ false
    → has "]" host ≡ false
    → IsPlain p
    → plain (concat host (String.◌∷◌ ":" p)) (host, p) ≡ parts host p
unfolding has plain checked
checked-plain host p colon opens closes plain_port =
    ground (arith, has-concat "[" host (String.◌∷◌ ":" p), has-concat "]" host (String.◌∷◌ ":" p))

bracketed-host :
    (host p : String)
    → has "[" host ≡ false
    → has "]" host ≡ false
    → IsPlain p
    → bracketed (concat host (String.◌∷◌ "]" (String.◌∷◌ ":" p))) (some (host, String.◌∷◌ ":" p))
      ≡ parts host p
unfolding has bracketed checked after_bracket
bracketed-host host p opens closes plain_port =
    ground (arith, has-concat "[" host (String.◌∷◌ "]" (String.◌∷◌ ":" p)))

split_last-bracketed :
    (host p : String)
    → has ":" p ≡ false
    → split_last (String.◌∷◌ "[" (concat host (String.◌∷◌ "]" (String.◌∷◌ ":" p))))
      ≡ some (concat (String.◌∷◌ "[" host) "]", p)
split_last-bracketed host p h =
    let end : split_last (String.◌∷◌ "]" (String.◌∷◌ ":" p)) ≡ some ("]", p) =
      unfold split_last in rw (split_last-colon p h) refl in
    ap split_last (sym (concat-cons "[" host (String.◌∷◌ "]" (String.◌∷◌ ":" p))))
    ∙ split_last-concat (String.◌∷◌ "[" host) (String.◌∷◌ "]" (String.◌∷◌ ":" p)) "]" p end

split-bracketed :
    (host p : String)
    → has "[" host ≡ false
    → has "]" host ≡ false
    → IsPlain p
    → split_host_port (String.◌∷◌ "[" (concat host (String.◌∷◌ "]" (String.◌∷◌ ":" p))))
      ≡ parts host p
unfolding split_host_port
split-bracketed host p opens closes plain_port =
    let rest = concat host (String.◌∷◌ "]" (String.◌∷◌ ":" p)) in
    ap (by_last (String.◌∷◌ "[" rest)) (split_last-bracketed host p plain_port.0)
    ∙ ap (bracketed rest) (split_close-concat host (String.◌∷◌ ":" p) closes)
    ∙ bracketed-host host p opens closes plain_port

split-plain :
    (host p : String)
    → has ":" host ≡ false
    → has "[" host ≡ false
    → has "]" host ≡ false
    → IsPlain p
    → split_host_port (concat host (String.◌∷◌ ":" p)) ≡ parts host p
unfolding split_host_port
split-plain host p colon opens closes plain_port =
    let split : split_last (concat host (String.◌∷◌ ":" p)) ≡ some (host, p) =
      split_last-concat host (String.◌∷◌ ":" p) "" p (split_last-colon p plain_port.0)
      ∙ ap (λ h. some (h, p)) (concat_empty host) in
    ap (by_last (concat host (String.◌∷◌ ":" p))) split
    ∙ (by_first-plain host p (host, p) opens ∙ checked-plain host p colon opens closes plain_port)

split-join :
    (host p : String)
    → has "[" host ≡ false
    → has "]" host ≡ false
    → IsPlain p
    → split_host_port (join_host_port host p) ≡ parts host p
split-join host p opens closes plain_port = elim (Bool-cases (has ":" host)) [
  | inl colon ↦ rw colon (split-bracketed host p opens closes plain_port)
  | inr free ↦ rw free (split-plain host p free opens closes plain_port)
]

-- Any host without brackets and any 64-bit port are read back from the address in which
-- `net.JoinHostPort` writes them.
pub parse_address-join :
    (host : String) (port : ℤ)
    → has "[" host ≡ false
    → has "]" host ≡ false
    → InRange port
    → parse_address (join_host_port host (format_int port)) ≡ (host, (port, none))
unfolding parse_address is_digit
parse_address-join host port opens closes fits =
    ap addressed (
      split-join host (format_int port) opens closes (
        has-format_int ":" port refl (λ e. omega (arith, e)),
        has-format_int "[" port refl (λ e. omega (arith, e)),
        has-format_int "]" port refl (λ e. omega (arith, e)),
      ))
    ∙ rw (atoi-format_int port fits) refl
