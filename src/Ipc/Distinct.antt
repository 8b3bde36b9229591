-- ===== src/Ipc/Distinct.antt =====
-- The names of two endpoints.
use mathlib.Core.List.{reverse, reverse-append, append_cancel_right}
use canna.Prelude.{◌≡◌, refl, sym, ap, subst, ◌∙◌, ◌++◌, drop, get_or, ◌==◌, if◌then◌else◌}
use canna.Broker.{Frame}
use canna.Ipc.{
  Port, at_localfe, at_localbe, at_cloud, at_cloudbe, at_state, at_monitor, suffix, ipc_name,
}

-- The port is read off the end of the name.
abbrev ends_at : Frame → Port
ends_at l =
    if get_or l 4 0 == b'd'
    then at_cloud
    else if get_or l 4 0 == b'r'
    then at_monitor
    else if get_or l 5 0 == b't'
    then at_state
    else if get_or l 5 0 == b'f'
    then at_localfe
    else if get_or l 6 0 == b'd'
    then at_cloudbe
    else at_localbe

ends_at-suffix : (front : Frame) (p : Port) → ends_at (reverse (suffix p) ++ front) ≡ p
ends_at-suffix front at_localfe = refl
ends_at-suffix front at_localbe = refl
ends_at-suffix front at_cloud = refl
ends_at-suffix front at_cloudbe = refl
ends_at-suffix front at_state = refl
ends_at-suffix front at_monitor = refl

ends_at-reverse : (front : Frame) (p : Port) → ends_at (reverse (front ++ suffix p)) ≡ p
ends_at-reverse front p =
    ap ends_at (reverse-append front (suffix p)) ∙ ends_at-suffix (reverse front) p

-- Two endpoints have the same name only if the brokers and the ports are the same.
pub ipc_name_inj :
    (self other : Frame) (p q : Port)
    → ipc_name self p ≡ ipc_name other q
    → (self ≡ other) × (p ≡ q)
unfolding ipc_name
ipc_name_inj self other p q e =
    let texts : self ++ suffix p ≡ other ++ suffix q = ap (drop 6) e in
    let same : p ≡ q =
      sym (ends_at-reverse self p)
      ∙ ap (λ l. ends_at (reverse l)) texts
      ∙ ends_at-reverse other q in
    (
      append_cancel_right self other (suffix q)
          (subst (λ (r : Port). self ++ suffix r ≡ other ++ suffix q) same texts),
      same,
    )
