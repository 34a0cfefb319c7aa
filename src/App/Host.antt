-- ===== src/App/Host.antt =====
-- The host that is pinged (src-tauri/src/lib.rs): where its name comes from and which address it has.
-- Texts are lists of code points. The parse of an address and the DNS are arguments.
pub mod Extract
use vnt_gui_dev.Prelude.{
  ℕ, Bool, true, false, not, ◌&&◌, Option, none, some, List, [], ◌∷◌, ◌++◌, ◌==◌, if◌then◌else◌,
  Result, ok, err,
}
use vnt_gui_dev.Prelude.Decimal.{is_digit}
use vnt_gui_dev.Prelude.Text.{trim, strip_prefix}

abbrev pub scheme_end : List ℕ
scheme_end = b':' ∷ b'/' ∷ b'/' ∷ []

abbrev pub found_or : Option (List ℕ) → Option (List ℕ) → Option (List ℕ)
found_or (some rest) later = some rest
found_or none later = later

-- What comes after the first `://`.
pub after_scheme : List ℕ → Option (List ℕ)
unfolding strip_prefix
after_scheme [] = none
after_scheme (c ∷ cs) = found_or (strip_prefix scheme_end (c ∷ cs)) (after_scheme cs)

abbrev pub with_char : ℕ → List ℕ → Option (List ℕ × List ℕ) → Option (List ℕ × List ℕ)
with_char c cs (some (before, after)) = some (c ∷ before, after)
with_char c cs none = if c == b':' then some ([], cs) else none

-- What comes before and after the last `:`.
pub at_last_colon : List ℕ → Option (List ℕ × List ℕ)
at_last_colon [] = none
at_last_colon (c ∷ cs) = with_char c cs (at_last_colon cs)

abbrev pub all_digits : List ℕ → Bool
all_digits [] = true
all_digits (c ∷ cs) = is_digit c && all_digits cs

abbrev pub is_port : List ℕ → Bool
is_port [] = false
is_port (c ∷ cs) = all_digits (c ∷ cs)

abbrev without_port_of : List ℕ → Option (List ℕ × List ℕ) → List ℕ
without_port_of s none = s
without_port_of s (some (before, port)) = if is_port port then before else s

unfoldable pub without_port : List ℕ → List ℕ
unfolding at_last_colon
without_port s = without_port_of s (at_last_colon s)

abbrev pub or_whole : List ℕ → Option (List ℕ) → List ℕ
or_whole s none = s
or_whole s (some rest) = rest

abbrev pub unless_empty : List ℕ → Option (List ℕ)
unless_empty [] = none
unless_empty (c ∷ cs) = some (c ∷ cs)

unfoldable pub extract_host : List ℕ → Option (List ℕ)
unfolding after_scheme without_port
extract_host server =
    let s = trim server in unless_empty (without_port (or_whole s (after_scheme s)))

abbrev host_of : Option (List ℕ) → Option (List ℕ)
unfolding extract_host
host_of none = none
host_of (some server) = extract_host server

-- With the server of the active configuration, and the server that the daemon is connected to.
unfoldable pub get_ping_host : (configured connected : Option (List ℕ)) → Option (List ℕ)
unfolding extract_host
get_ping_host configured connected = found_or (host_of configured) (host_of connected)

pub data IpAddr : Type 0 where
  v4 v6 : ℕ → IpAddr

-- The loop over the addresses that DNS gives: the first of each kind.
abbrev pub collect : List IpAddr → (ipv4 ipv6 : Option IpAddr) → Option IpAddr × Option IpAddr
collect [] ipv4 ipv6 = (ipv4, ipv6)
collect (v4 n ∷ rest) none ipv6 = collect rest (some (v4 n)) ipv6
collect (v4 n ∷ rest) (some a) ipv6 = collect rest (some a) ipv6
collect (v6 n ∷ rest) ipv4 none = collect rest ipv4 (some (v6 n))
collect (v6 n ∷ rest) ipv4 (some a) = collect rest ipv4 (some a)

pub data ResolveError : Type 0 where
  empty_host no_address : ResolveError
  dns_failed : List ℕ → ResolveError

abbrev pub preferred : Option IpAddr × Option IpAddr → Result ResolveError IpAddr
preferred (some a, ipv6) = ok a
preferred (none, some a) = ok a
preferred (none, none) = err no_address

module _ (parse_ip : List ℕ → Option IpAddr) (lookup : List ℕ → Result (List ℕ) (List IpAddr)) where
  abbrev pub looked_up : Result (List ℕ) (List IpAddr) → Result ResolveError IpAddr
  looked_up (err e) = err (dns_failed e)
  looked_up (ok addrs) = preferred (collect addrs none none)

  abbrev parsed : List ℕ → Option IpAddr → Result ResolveError IpAddr
  parsed host (some ip) = ok ip
  parsed host none = looked_up (lookup host)

  abbrev resolve_trimmed : List ℕ → Result ResolveError IpAddr
  resolve_trimmed [] = err empty_host
  resolve_trimmed (c ∷ cs) = parsed (c ∷ cs) (parse_ip (c ∷ cs))

  unfoldable pub resolve_host : List ℕ → Result ResolveError IpAddr
  unfolding trim
  resolve_host host = resolve_trimmed (trim host)
