-- ===== src/Fault/Kind.antt =====
-- timefence-core/src/fault.rs: the kinds of fault.
pub data FaultKind : Type 0 where
  none drop_one swap_adjacent duplicate_one truncate_tail splice_old_prefix : FaultKind
