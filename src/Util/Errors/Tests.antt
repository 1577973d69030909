-- ===== src/Util/Errors/Tests.antt =====
-- util/error_handling.ts: the answers to one error.
use genie_cloud.Base.{◌≡◌, codes}
use genie_cloud.Util.Errors.{html, json}
use genie_cloud.Util.Errors.Answers.{
  Raised, forbidden, raised, meant_status, meant_message, answers-meant_status,
}

abbrev not_yours : Raised
not_yours = forbidden (codes "not yours")

answers-meant_status_example :
    ((html (raised not_yours)).0 ≡ meant_status not_yours)
    × (json (raised not_yours) ≡ (meant_status not_yours, meant_message not_yours))
answers-meant_status_example = answers-meant_status not_yours
