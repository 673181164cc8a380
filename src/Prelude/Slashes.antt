-- ===== src/Prelude/Slashes.antt =====
-- Base and Clean of Go's package `path`.
use mathlib.Core.Bool.{Bool, false, ◌||◌}
use mathlib.Core.List.{List, [], ◌∷◌, ◌++◌, reverse}
use sightpane.Prelude.Tests.{◌==◌, if◌then◌else◌}
use sightpane.Prelude.Text.{Text, codes, text_eq, is_empty, before, split}

drop_slashes : Text → Text
drop_slashes [] = []
drop_slashes (c ∷ s) = if c == b'/' then drop_slashes s else c ∷ s

or_dot : Text → Text → Text
or_dot other [] = other
or_dot other (c ∷ s) = c ∷ s

-- The last element, "." of the empty path and "/" of slashes alone.
unfoldable pub base : Text → Text
unfolding drop_slashes or_dot
base [] = codes "."
base (c ∷ s) = or_dot (codes "/") (reverse (before b'/' (drop_slashes (reverse (c ∷ s)))))

-- One element of a path after those of `out`, the last of which stands first.
push : Bool → Text → List Text → List Text
push rooted part [] =
    if is_empty part || text_eq part (codes ".")
    then []
    else if text_eq part (codes "..")
    then if rooted then [] else part ∷ []
    else part ∷ []
push rooted part (p ∷ out) =
    if is_empty part || text_eq part (codes ".")
    then p ∷ out
    else if text_eq part (codes "..")
    then if text_eq p (codes "..") then part ∷ p ∷ out else out
    else part ∷ p ∷ out

push_all : Bool → List Text → List Text → List Text
unfolding push
push_all rooted [] out = out
push_all rooted (part ∷ parts) out = push_all rooted parts (push rooted part out)

join : List Text → Text
join [] = []
join (p ∷ []) = p
join (p ∷ q ∷ ps) = p ++ b'/' ∷ join (q ∷ ps)

is_rooted : Text → Bool
is_rooted [] = false
is_rooted (c ∷ s) = c == b'/'

unfoldable pub path_clean : Text → Text
unfolding push_all join is_rooted or_dot
path_clean s =
    let parts = join (reverse (push_all (is_rooted s) (split b'/' s) [])) in
    if is_rooted s then b'/' ∷ parts else or_dot (codes ".") parts
