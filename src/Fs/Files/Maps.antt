-- ===== src/Fs/Files/Maps.antt =====
-- Maps from names to contents, as the commands change them.
use native.Mathlib.Decide.{ℕ_discrete}
use cs4440proj3_final.Prelude.{◌≡◌, ◌≢◌, refl, Option, Bytes}
use mathlib.Core.Logic.{ite, if_pos, if_neg}

pub Bytes-discrete : Discrete Bytes
Bytes-discrete = hlevel (ℕ_discrete)

-- The map with another value for one name.
unfoldable pub assign : Bytes → Option Bytes → (Bytes → Option Bytes) → Bytes → Option Bytes
assign name o files x = ite (Bytes-discrete x name) o (files x)

pub assign_self :
    (name : Bytes) (o : Option Bytes) (files : Bytes → Option Bytes) → assign name o files name ≡ o
unfolding assign
assign_self name o files = if_pos (Bytes-discrete name name) refl o (files name)

pub assign_ne :
    (name : Bytes) (o : Option Bytes) (files : Bytes → Option Bytes) (x : Bytes)
    → x ≢ name
    → assign name o files x ≡ files x
unfolding assign
assign_ne name o files x ne = if_neg (Bytes-discrete x name) ne o (files x)

-- A value that the map has already.
pub assign_same :
    (name : Bytes) (files : Bytes → Option Bytes) (x : Bytes)
    → assign name (files name) files x ≡ files x
assign_same name files x = elim (Bytes-discrete x name) [
  | yes e ↦ rw e (assign_self name (files name) files)
  | no ne ↦ assign_ne name (files name) files x ne
]
