-- ===== src/Tests/Clients.antt =====
-- The clients that fill the archive, and the page of Historical-ROA/main.go.
use google_cloud_storage.Base.{Bytes, codes, [], true, ◌≡◌, refl, arith}
use google_cloud_storage.Base.Result.{ok}
use google_cloud_storage.Base.Run.{panic}
use google_cloud_storage.Roa.{ℤ, pos, InputRoa, main_page}
use google_cloud_storage.Roa.Laws.{main_page_panics}
use google_cloud_storage.Strings.Split.{Lacks}

-- The page and the updates of the authorizations.
abbrev atoi : Bytes → ℤ
atoi s = pos 24

abbrev roa : InputRoa
roa = record { asn = []; prefix = codes "10.0.0.0"; max_length = pos 24; ta = []; parse_cidr = [] }

address_has_no_slash : Lacks b'/' (codes "10.0.0.0")
address_has_no_slash = ground arith

main_page_panics_example : main_page atoi (λ p. ok p) true roa ≡ panic
main_page_panics_example = main_page_panics atoi (λ p. ok p) roa refl refl address_has_no_slash
