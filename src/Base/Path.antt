-- ===== src/Base/Path.antt =====
-- `std::path` as the program uses it. A path is a text or bytes that are no UTF-8.
use mathlib.Core.Bool.{Bool, ◌||◌}
use mathlib.Core.List.{List, ◌∷◌, ◌++◌}
use mathlib.Core.Option.{Option, none, some}
use Prim.Native.Nat.{ℕ}
use roused.Base.Tests.{if◌then◌else◌}
use roused.Base.Text.{Text, is_empty, starts_with, ends_with}

pub data PathBuf : Type 0 where
  utf8 : Text → PathBuf
  not_utf8 : List ℕ → PathBuf

abbrev pub is_absolute : PathBuf → Bool
is_absolute (utf8 t) = starts_with b'/' t
is_absolute (not_utf8 bytes) = starts_with b'/' bytes

abbrev pub is_empty_path : PathBuf → Bool
is_empty_path (utf8 t) = is_empty t
is_empty_path (not_utf8 bytes) = is_empty bytes

abbrev pub to_str : PathBuf → Option Text
to_str (utf8 t) = some t
to_str (not_utf8 bytes) = none

-- `Path::join` of texts, and of bytes and ASCII.
unfoldable pub join : Text → Text → Text
join directory name =
    if starts_with b'/' name
    then name
    else if is_empty directory || ends_with b'/' directory
    then directory ++ name
    else directory ++ (b'/' ∷ name)

abbrev pub join_path : PathBuf → Text → PathBuf
join_path (utf8 t) name = utf8 (join t name)
join_path (not_utf8 bytes) name = not_utf8 (join bytes name)

-- `Path::display`, with what it shows for bytes that are no UTF-8 as `lossy`.
abbrev pub display : (List ℕ → Text) → PathBuf → Text
display lossy (utf8 t) = t
display lossy (not_utf8 bytes) = lossy bytes
