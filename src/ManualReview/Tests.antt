-- ===== src/ManualReview/Tests.antt =====
-- The theorems of the manual requests at a ticker that is asked for twice.
use equity_research_agent.Prelude.{◌+◌, some, eqb, if◌then◌else◌}
use equity_research_agent.ManualReview.{RequestService, initial, Source, create, dismiss}
use equity_research_agent.ManualReview.Active.{
  IsOrderly, Creates, create-Creates, Reachable.starts, Reachable.creates, Reachable.dismisses,
  Reachable-IsOrderly,
}

abbrev source : Source
source = record { now = λ n. 1000 + n; uuid4 = λ n. if eqb n 0 then "a" else "b" }

abbrev asked : RequestService
asked = (create source "aapl " (some "earnings") "review_only" initial).1

abbrev asked_again : RequestService
asked_again = (create source "AAPL" (some "guidance") "paper_trade_eligible" asked).1

Reachable-IsOrderly_example : IsOrderly (dismiss source "b" asked_again).1
Reachable-IsOrderly_example = Reachable-IsOrderly (
    dismisses source "b" (
      creates source "AAPL" (some "guidance") "paper_trade_eligible"
        (creates source "aapl " (some "earnings") "review_only" starts)))

create-Creates_example :
    Creates source "AAPL" asked
      (create source "AAPL" (some "guidance") "paper_trade_eligible" asked)
create-Creates_example =
    create-Creates source "AAPL" (some "guidance") "paper_trade_eligible" asked
      (Reachable-IsOrderly (creates source "aapl " (some "earnings") "review_only" starts))
