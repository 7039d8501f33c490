-- ===== src/Converter/Archive/Names.antt =====
-- The name that pkg/mrt_converter/mrt_converter.go gives a converted archive.
use google_cloud_storage.Base.{Bytes, codes, is_empty, [], ◌∷◌, ◌++◌, ◌≡◌, refl, false, arith}
use google_cloud_storage.Strings.Split.{Lacks}
use google_cloud_storage.Strings.Trim.{in_set}
use google_cloud_storage.Strings.Search.{contains, replace_first_at_end}
use google_cloud_storage.Strings.FilePath.{extension}
use google_cloud_storage.Converter.Archive.{dst_object}

extension_none : (e : Bytes) → Lacks b'.' e → extension e ≡ []
unfolding extension is_empty
extension_none [] l = refl
extension_none (c ∷ e) (hc, l) = ground (arith, extension_none e l)

in_set_of_Lacks : (c : Bytes) (b : Bytes) → Lacks b'/' b → in_set b'/' b ≡ false
unfolding in_set
in_set_of_Lacks c [] l = refl
in_set_of_Lacks c (x ∷ b) (hx, l) = ground (arith, in_set_of_Lacks c b l)

-- The extension of a name is what follows its last dot, if no slash does.
pub extension-append :
    (stem e : Bytes) → Lacks b'.' e → Lacks b'/' e → extension (stem ++ (b'.' ∷ e)) ≡ b'.' ∷ e
unfolding extension is_empty
extension-append [] e dots slashes =
    ground (arith, extension_none e dots, in_set_of_Lacks e e slashes)
extension-append (c ∷ stem) e dots slashes = ground (arith, extension-append stem e dots slashes)

-- The name of an archive has its extension replaced by `.gz` at the end, if the extension is not
-- found earlier in the name.
pub dst_object-append :
    (stem e : Bytes)
    → Lacks b'.' e
    → Lacks b'/' e
    → contains stem (b'.' ∷ e) ≡ false
    → dst_object (stem ++ (b'.' ∷ e)) ≡ stem ++ codes ".gz"
unfolding dst_object
dst_object-append stem e dots slashes fresh =
    rw (extension-append stem e dots slashes)
      (replace_first_at_end b'.' e dots stem (codes ".gz") fresh)
