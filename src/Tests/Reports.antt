-- ===== src/Tests/Reports.antt =====
-- The metrics of a mass upload, and an authorization from its download to the page.
use google_cloud_storage.Base.{ℕ, codes, List, [], ◌∷◌, none, ◌≡◌, refl, arith, true}
use google_cloud_storage.Base.Dict.{Dict}
use google_cloud_storage.Base.Result.{ok}
use google_cloud_storage.Base.Run.{returns}
use google_cloud_storage.Deployment.{rpc}
use google_cloud_storage.MassUpload.{ftp_walk}
use google_cloud_storage.MassUpload.Channel
use google_cloud_storage.MassUpload.Channel.{launched, no_work, sends, receives}
use google_cloud_storage.MassUpload.Channel.Report.{
  new_metrics, metric_all, print_metrics, report, round_calls, step_calls, SharedRun, here, next,
}
use google_cloud_storage.MassUpload.Channel.Report.Laws.{SharedRun-report}
use google_cloud_storage.Strings.Split.{split}
use google_cloud_storage.Strings.Trim.{trim_left}
use google_cloud_storage.Roa.{TimedRoa, Page, row_of, main_page}
use google_cloud_storage.Roa.Results.{Shown, results, shown, answer_of}
use google_cloud_storage.Roa.Journey.{by_asn, pull_to_db-shows, times_of}
use google_cloud_storage.Tests.Commands.{
  tree, retr, file, logins, start, drained, store, conf, empty, sum_of,
}
use google_cloud_storage.Tests.Warehouses.{
  tables, tables-IsLawful, inserts, atoi, roa, new_row, before, after, read, Unique-new_row, pulled,
  print,
}
use mathlib.Core.List.{Memᴰ}
use google_cloud_storage.Roa.Merge.Laws.{history}

abbrev counted : Dict ℕ
counted =
    metric_all (round_calls store sum_of (codes "archive") (rpc store conf sum_of) retr file empty)
      new_metrics

shared :
    SharedRun store sum_of
      (codes "archive")
      (rpc store conf sum_of)
      retr
      none
      start
      new_metrics
      drained
      counted
unfolding launched google_cloud_storage.MassUpload.Channel.started ftp_walk trim_left step_calls
    metric_all
shared =
    next (next here (sends file [] refl refl (omega arith) refl)) (
      receives file [] [] (record { work = no_work; exit = none } ∷ []) no_work refl refl refl refl)

SharedRun-report_example :
    (counted ≡ report drained.workers)
    × (print_metrics (ok tt) counted ≡ ok (report drained.workers))
SharedRun-report_example =
    SharedRun-report store sum_of (codes "archive") (rpc store conf sum_of) retr none logins tree
      empty drained counted shared

pull_to_db-shows_example :
    (r : TimedRoa) × (p : Page) × (out : List Shown) × (row_of atoi 9 roa (split b'/' roa.prefix)
      ≡ returns r)
    × (main_page atoi (λ n. ok n) true (by_asn roa.asn) ≡ returns p)
    × (answer_of (λ t. google_cloud_storage.Roa.pos t) (λ t. []) print after.arr (ok tt) p
        ≡ results out)
    × Memᴰ
        (shown
          (λ t. google_cloud_storage.Roa.pos t)
          (λ t. [])
          print
          (record r { times = 9 ∷ times_of (history r.roa before.arr) }))
        out
pull_to_db-shows_example =
    pull_to_db-shows tables tables-IsLawful atoi (λ n. ok n) (λ t. google_cloud_storage.Roa.pos t)
      (λ t. []) print inserts 9 (roa ∷ []) (new_row ∷ []) (ok tt) before after roa read
      Unique-new_row pulled (Memᴰ.head refl) (λ h. absurd (cc))
