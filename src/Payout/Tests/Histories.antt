-- ===== src/Payout/Tests/Histories.antt =====
-- Sequences of calls.
use media_center.Prelude.{◌≡◌, refl, none, some}
use media_center.Dict.{insert, lookup, insert, key_eq}
use media_center.Payout.State.{list_payouts}
use media_center.Payout.Change.{added}
use media_center.Payout.Change.Item.{AllSound, Change-AllSound}
use media_center.Payout.Change.Progress.{Persists}
use media_center.Payout.Change.History.{
  perform_all, empty_gateway, empty-AllSound, perform_all-AllSound, perform_all-Persists,
}
use media_center.Payout.Change.Tenants.{SameForOthers, perform_all-SameForOthers}
use media_center.Payout.Listing.{IsListing, list_payouts-IsListing}
use media_center.Payout.Tests.Samples.{platform, queued_payout, g_waiting, history, foreign_calls}

perform_all-AllSound_example : AllSound (perform_all platform history empty_gateway).payouts
perform_all-AllSound_example = perform_all-AllSound platform history

waiting-AllSound : AllSound g_waiting.payouts
unfolding lookup insert
waiting-AllSound =
    Change-AllSound {t = "studio"} {d = empty_gateway.payouts}
      (added queued_payout
        (record {
          queued_first = refl;
          unconfirmed = refl;
          undecided = refl;
          unexecuted = refl;
          two_factor = refl;
        })
        refl refl refl)
      empty-AllSound

is_waiting : lookup ("studio", "p1") g_waiting.payouts ≡ some queued_payout
unfolding key_eq lookup
is_waiting = refl

perform_all-Persists_example :
    Persists ("studio", "p1") queued_payout (perform_all platform history g_waiting).payouts
perform_all-Persists_example =
    perform_all-Persists platform history g_waiting waiting-AllSound ("studio", "p1") queued_payout
      is_waiting

list_payouts-IsListing_example :
    let g = perform_all platform history empty_gateway in
    IsListing "studio" none g (list_payouts "studio" none g)
list_payouts-IsListing_example = list_payouts-IsListing platform history "studio" none

perform_all-SameForOthers_example :
    SameForOthers "label" g_waiting.payouts (perform_all platform foreign_calls g_waiting).payouts
perform_all-SameForOthers_example =
    perform_all-SameForOthers platform "label" foreign_calls g_waiting waiting-AllSound
      (refl, (refl, (refl, tt)))
