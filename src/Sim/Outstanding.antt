-- ===== src/Sim/Outstanding.antt =====
-- Which events are pending, read off the calls that are made of them: a notification leaves an event
-- pending, and cancel takes it back.
use sys_rt.Common.{◌≡◌, refl, Bool, true, false, List, [], ◌∷◌, ◌++◌, if◌then◌else◌}
use sys_rt.Sim.{Event, EventCall, notify, notify_after, cancel}

-- A pending event after one more call.
abbrev pub marks : (Event → Bool) → EventCall → Bool → Bool
marks is (notify e) b = if is e then true else b
marks is (notify_after e t) b = if is e then true else b
marks is (cancel e) b = if is e then false else b

abbrev pub outstanding : (Event → Bool) → Bool → List EventCall → Bool
outstanding is b [] = b
outstanding is b (c ∷ cs) = outstanding is (marks is c b) cs

pub outstanding-append :
    (is : Event → Bool) (b : Bool) (xs ys : List EventCall)
    → outstanding is b (xs ++ ys) ≡ outstanding is (outstanding is b xs) ys
outstanding-append is b [] ys = refl
outstanding-append is b (x ∷ xs) ys = outstanding-append is (marks is x b) xs ys
