-- ===== src/Tftp/Buffers/Netascii.antt =====
-- The netascii form of a file, as a plain recursion: what `read_ahead` is to send, and what
-- `write_behind` is to undo.
use netkit.Base.{ℕ, Bool, List, [], ◌∷◌, ◌++◌, ◌==◌, if◌then◌else◌}
use netkit.Tftp.Buffers.{cr, lf, nul}

unfoldable pub expand : ℕ → List ℕ
expand c = if c == lf then cr ∷ lf ∷ [] else if c == cr then cr ∷ nul ∷ [] else c ∷ []

unfoldable pub encode : List ℕ → List ℕ
unfolding expand
encode [] = []
encode (c ∷ cs) = expand c ++ encode cs

-- What goes over the wire for a file.
unfoldable pub wire : Bool → List ℕ → List ℕ
unfolding encode
wire convert cs = if convert then encode cs else cs
