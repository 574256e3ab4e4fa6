-- ===== src/Core/Network.antt =====
-- crates/nexus-link-core/src/network.rs: the private address of the machine, from the output of `ip`
-- or of `hostname`.
use Prim.Native.String.{[], ◌∷◌}
use nexus_link.Base.{
  Option, String, [], and_then, err, head?, if◌then◌else◌, none, ok, or_else, some, unwrap_or, ◌∷◌,
}
use nexus_link.Text.{is_empty, starts_with, strip}
use nexus_link.Text.Split.{split_whitespace}
use nexus_link.Process.{Spawned}

-- `s.find(t)` with the text from behind `t` on: `&s[i + t.len()..]`.
unfoldable pub after : String → String → Option String
unfolding starts_with strip
after [] t = if starts_with [] t then some (strip [] t) else none
after (c ∷ s) t =
    let rest = after s t in if starts_with (c ∷ s) t then some (strip (c ∷ s) t) else rest

-- The first word, if there is one; `unwrap_or("")` with the test that follows it.
first_word : String → Option String
first_word s =
    let word = unwrap_or (head? (split_whitespace s)) "" in
    if is_empty word then none else some word

from_route : Spawned → Option String
from_route (err e) = none
from_route (ok o) = if o.success then and_then (after o.stdout "src ") first_word else none

from_hostname : Spawned → Option String
from_hostname (err e) = none
from_hostname (ok o) = if o.success then first_word o.stdout else none

-- `route` is the outcome of `ip route get 1.1.1.1`, `hostname` of `hostname -I`.
unfoldable pub detect_private_ip : Spawned → Spawned → Option String
unfolding from_route from_hostname first_word
detect_private_ip route hostname = or_else (from_route route) (from_hostname hostname)
