-- ===== src/Distribution/Versions/Order.antt =====
-- `newer_than` is a strict order by components.
use backstop_core.Prelude.{true, false, ◌≡◌, arith}
use backstop_core.Distribution.Versions.{Version, newer_than}

pub newer_than-irreflexive : (v : Version) → newer_than v v ≡ false
unfolding newer_than
newer_than-irreflexive v = ground arith

pub newer_than-asymmetric : (v w : Version) → newer_than v w ≡ true → newer_than w v ≡ false
unfolding newer_than
newer_than-asymmetric v w h = ground arith

-- A version that is not newer than a second, which is not newer than a third, is not newer than it.
pub not_newer-transitive :
    (u v w : Version) → newer_than u v ≡ false → newer_than v w ≡ false → newer_than u w ≡ false
unfolding newer_than
not_newer-transitive u v w h k = ground arith

pub newer_than-transitive :
    (u v w : Version) → newer_than u v ≡ true → newer_than v w ≡ true → newer_than u w ≡ true
unfolding newer_than
newer_than-transitive u v w h k = ground arith
