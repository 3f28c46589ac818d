-- ===== src/Fs/Regular/Content.antt =====
-- The bytes of a file by their positions.
use linux_0_11_lab.Base.{
  List, Option, [], if◌then◌else◌, none, some, suc, zero, ℕ, ◌%◌, ◌+◌, ◌/◌, ◌==◌, ◌∷◌,
}
use linux_0_11_lab.Fs.Regular.{block_size, byte_at}
use linux_0_11_lab.Fs.Zones.{File}
use linux_0_11_lab.Fs.Zones.Lookup.{lookup}

-- The byte at a position: 0 in a hole, none in a block that cannot be read.
unfoldable pub content : ℕ → File → Option ℕ
content q f =
    let b : ℕ = lookup (q / block_size) f in
    if b == 0
    then some 0
    else if f.volume.readable b
    then some (byte_at b (q % block_size) f.volume)
    else none

abbrev pub before : Option ℕ → List ℕ → List ℕ
before none rest = []
before (some c) rest = c ∷ rest

-- The bytes from a position on, up to `n` of them and to the first that cannot be read.
unfoldable pub readable_bytes : File → ℕ → ℕ → List ℕ
readable_bytes f p zero = []
readable_bytes f p (suc n) = before (content p f) (readable_bytes f (p + 1) n)
