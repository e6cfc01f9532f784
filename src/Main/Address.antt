-- ===== src/Main/Address.antt =====
-- `parseAddress` of main.go, with what it uses of Go's `net.SplitHostPort`. The characters that are
-- looked for are ASCII, so that looking for them in a text and in its bytes is the same.
pub mod RoundTrip
use reactivejob_operator.Prelude.{
  Char, code, String, Bool, true, false, Option, none, some, ◌==◌, ◌||◌, if◌then◌else◌, has,
}
use reactivejob_operator.Prelude.Int.{ℤ, negsuc}
use reactivejob_operator.Strconv.{atoi}

pub data AddressError : Type 0 where
  missing_port too_many_colons missing_bracket unexpected_open unexpected_close bad_port :
      AddressError

abbrev later : Char → String → Option (String × String) → Option (String × String)
later c s none = if code c == b':' then some ("", s) else none
later c s (some (host, port)) = some (String.◌∷◌ c host, port)

-- The texts before and after the last colon.
unfoldable pub split_last : String → Option (String × String)
split_last String.[] = none
split_last (String.◌∷◌ c s) = later c s (split_last s)

abbrev before : Char → Option (String × String) → Option (String × String)
before c none = none
before c (some (inside, after)) = some (String.◌∷◌ c inside, after)

-- The texts before and after the first `]`.
unfoldable pub split_close : String → Option (String × String)
split_close String.[] = none
split_close (String.◌∷◌ c s) =
    let rest = before c (split_close s) in if code c == b']' then some ("", s) else rest

pub data HostPort : Type 0 where
  bad : AddressError → HostPort
  parts : String → String → HostPort

-- What must hold of the texts in which a bracket is looked for.
checked : String → String → String → String → HostPort
checked opens closes host port =
    if has "[" opens
    then bad unexpected_open
    else if has "]" closes
    then bad unexpected_close
    else parts host port

-- After the bracket there must be a colon, the last one of the address.
after_bracket : String → String → String → HostPort
after_bracket inside_and_after inside String.[] = bad missing_port
after_bracket inside_and_after inside (String.◌∷◌ c port) =
    if code c == b':'
    then if has ":" port
      then bad too_many_colons
      else checked inside_and_after (String.◌∷◌ c port) inside port
    else bad missing_port

bracketed : String → Option (String × String) → HostPort
bracketed s none = bad missing_bracket
bracketed s (some (inside, after)) = after_bracket s inside after

plain : String → String × String → HostPort
plain address (host, port) =
    if has ":" host then bad too_many_colons else checked address address host port

abbrev by_first : String → String × String → HostPort
by_first String.[] split = plain String.[] split
by_first (String.◌∷◌ c s) split =
    if code c == b'[' then bracketed s (split_close s) else plain (String.◌∷◌ c s) split

abbrev by_last : String → Option (String × String) → HostPort
by_last address none = bad missing_port
by_last address (some split) = by_first address split

-- `net.SplitHostPort`
unfoldable pub split_host_port : String → HostPort
unfolding bracketed plain after_bracket checked
split_host_port address = by_last address (split_last address)

-- The host and the port, and `none` for the nil error.
abbrev given_up : AddressError → String × (ℤ × Option AddressError)
given_up e = ("", (negsuc 0, some e))

abbrev with_port : String → Option ℤ → String × (ℤ × Option AddressError)
with_port host none = given_up bad_port
with_port host (some port) = (host, (port, none))

abbrev addressed : HostPort → String × (ℤ × Option AddressError)
addressed (bad e) = given_up e
addressed (parts host port) = with_port host (atoi port)

unfoldable pub parse_address : String → String × (ℤ × Option AddressError)
unfolding split_host_port
parse_address address = addressed (split_host_port address)
