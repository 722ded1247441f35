-- ===== src/Posix/Mutex/Tests.antt =====
-- A mutex with attributes, and the theorem on them.
use libosal.Prelude.{◌+◌, ◌≡◌, refl, true, false, none, some, arith}
use libosal.Osal.{Retval, Errno}
use libosal.Posix.Mutex.{
  Kind, Protocol, mutex_settings, mutex_init, mutex_lock, mutex_trylock, mutex_unlock,
  mutex_destroy,
}
use libosal.Posix.Mutex.Laws.{mutex_settings-attributes}

-- OSAL_MUTEX_ATTR__ROBUST | OSAL_MUTEX_ATTR__PROCESS_SHARED, as osal_io_shm_setup has it.
shared_settings : mutex_settings 48 ≡ record {
  kind = some Kind.normal;
  robust = true;
  process_shared = true;
  protocol = some Protocol.no_protocol;
  prioceiling = none;
}
unfolding mutex_settings
shared_settings = refl

codes :
    (mutex_init (λ s. some Errno.eperm) none ≡ Retval.permission_denied)
    × (mutex_lock (some Errno.edeadlk) ≡ Retval.dead_lock)
    × (mutex_trylock (some Errno.ebusy) ≡ Retval.busy)
    × (mutex_unlock (some Errno.eperm) ≡ Retval.permission_denied)
    × (mutex_destroy (some Errno.ebusy) ≡ Retval.operation_failed)
unfolding mutex_init mutex_lock mutex_trylock mutex_unlock mutex_destroy
codes = (refl, refl, refl, refl, refl)

mutex_settings-attributes_test : mutex_settings (2 + 16 + 512 + 65536 + 65536) ≡ record {
  kind = some Kind.recursive;
  robust = true;
  process_shared = false;
  protocol = some Protocol.protect;
  prioceiling = some 2;
}
mutex_settings-attributes_test =
    mutex_settings-attributes Kind.recursive true false Protocol.protect 2 (omega arith)
