-- ===== src/Runner/Delivery.antt =====
-- The sends of the main goroutine do not block, and drop nothing.
use test.Base.{◌<◌, ◌≡◌, [], ◌∷◌, ◌++◌, Str, arith, if◌then◌else◌}
use test.Runner.{TestResult, Group, State, size, report, Reach}
use test.Runner.Report.{try_send-room}
use test.Runner.Steps.{Reach-Inv}

module _ (group : Group) {s : State} (r : Reach group s) where
  -- While the loop runs, a report reaches the caller and the channel of every test that is still
  -- waiting, and changes no other channel: no send finds its buffer full.
  pub report-delivers :
      (id : Str) (x : TestResult)
      → s.results < size group
      → ((report group s id x).callbacks ≡ s.callbacks ++ (id, x) ∷ [])
        × ((j : Str)
            → (report group s id x).chan j
              ≡ (if s.waiting j then s.chan j ++ (id, x) ∷ [] else s.chan j))
  unfolding report
  report-delivers id x lt =
      let v = Reach-Inv group r in
      (
        try_send-room (size group) id x s.callbacks (omega (arith, v.counted)),
        λ j. rw (try_send-room (size group) id x (s.chan j) (omega (arith, v.fits j))),
      )
