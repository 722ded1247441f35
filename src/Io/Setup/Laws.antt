-- ===== src/Io/Setup/Laws.antt =====
-- What osal_io_shm_setup makes, and what it hides.
use libosal.Prelude.{
  ℕ, ◌+◌, ◌*◌, ◌^◌, ◌≤◌, ◌<◌, ◌≡◌, refl, none, some, List, [], ◌∷◌, ◌++◌, arith, length, true,
  false, ◌||◌, ◌≢◌, Bool-cases, inl, inr, ◌&&◌, take,
}
use libosal.Prelude.Word.{add64, mul64}
use libosal.Osal.{Retval, is_ok}
use libosal.Io.{IoShm, Io, printf}
use libosal.Io.Queue.{window_nil}
use libosal.Io.Slots.{IsValid, slot}
use libosal.Io.Ring.{messages}
use libosal.Io.Setup.{
  shm_magic, shm_attr_msr, flag_creat, handle_size, SetupAnswers, Texts, report, initialized,
  setup_mapped, setup_opened, io_shm_setup,
}

-- Without a ring a message goes to stdout.
abbrev put : Io → List ℕ → Io
put io text = record io { stdout = io.stdout ++ (take 529 text ∷ []) }

report-none : (io : Io) (text : List ℕ) → io.buffer ≡ none → report io text ≡ some (put io text)
unfolding report printf
report-none io text free = ground (arith, free)

module _ (answers : SetupAnswers) (texts : Texts) (io : Io) (max_msgs max_msg_size : ℕ) where
  abbrev new_ring : IoShm
  new_ring = initialized answers.sem_init max_msgs max_msg_size answers.mapped

  new_ring-IsValid :
      0 < max_msgs
      → max_msgs < 2 ^ 32
      → max_msgs * max_msg_size < 2 ^ 64
      → max_msgs * max_msg_size ≤ length answers.mapped.msgs
      → IsValid new_ring
  new_ring-IsValid some_msgs few small room = record {
    some_slot = some_msgs;
    few_slots = few;
    printed_in_range = some_msgs;
    written_in_range = some_msgs;
    room = room;
    small = small;
  }

  setup_opened-new :
      (opened : Retval)
      → io.buffer ≡ none
      → is_ok opened ≡ true
      → is_ok answers.shm_map ≡ true
      → answers.mapped.magic ≢ shm_magic
      → setup_opened answers texts opened io max_msgs max_msg_size
        ≡ some (record (put io texts.mapped_ok) { buffer = some new_ring })
  unfolding setup_opened setup_mapped
  setup_opened-new opened free opens maps new = ground (arith, report-none io texts.mapped_ok free)

-- Where there is no ring yet, one of the two osal_shm_open calls and osal_shm_map succeed, and the
-- mapped memory does not hold the magic number but has room for the messages, of which there are
-- between 1 and 2^32 - 1, osal_io_shm_setup makes a valid ring of that many slots of the size
-- asked for, with no unread message.
pub setup_lem :
    (answers : SetupAnswers) (texts : Texts) (io : Io) (max_msgs max_msg_size : ℕ)
    → io.buffer ≡ none
    → is_ok (answers.shm_open shm_attr_msr (add64 handle_size (mul64 max_msg_size max_msgs)))
        || is_ok (
            answers.shm_open
              (shm_attr_msr + flag_creat)
              (add64 handle_size (mul64 max_msg_size max_msgs)))
      ≡ true
    → is_ok answers.shm_map ≡ true
    → answers.mapped.magic ≢ shm_magic
    → 0 < max_msgs
    → max_msgs < 2 ^ 32
    → max_msgs * max_msg_size < 2 ^ 64
    → max_msgs * max_msg_size ≤ length answers.mapped.msgs
    → (io' : Io) × (shm : IoShm) × (io_shm_setup answers texts io max_msgs max_msg_size
        ≡ some (Retval.ok, io'))
      × (io'.buffer ≡ some shm)
      × IsValid shm
      × (messages shm ≡ [])
      × (shm.max_messages ≡ max_msgs)
      × (shm.max_message_size ≡ max_msg_size)
unfolding io_shm_setup
setup_lem answers texts io max_msgs max_msg_size free opens maps new some_msgs few small room =
    let shm = new_ring answers texts io max_msgs max_msg_size in
    let valid = new_ring-IsValid answers texts io max_msgs max_msg_size some_msgs few small room in
    let empty = window_nil max_msgs (slot shm) 0 0 refl in
    let size = add64 handle_size (mul64 max_msg_size max_msgs) in
    let first = answers.shm_open shm_attr_msr size in
    let second = answers.shm_open (shm_attr_msr + flag_creat) size in
    elim (Bool-cases (is_ok first)) [
      | inl e ↦
          let made =
            setup_opened-new answers texts io max_msgs max_msg_size first free e maps new in
          (
            record (put io texts.mapped_ok) { buffer = some shm },
            shm,
            ground (arith, made),
            refl,
            valid,
            empty,
            refl,
            refl,
          )
      | inr e ↦
          let told = put io texts.missing in
          let made =
            setup_opened-new answers texts told max_msgs max_msg_size second free (ground arith)
              maps new in
          (
            record (put told texts.mapped_ok) { buffer = some shm },
            shm,
            ground (arith, made, report-none io texts.missing free),
            refl,
            valid,
            empty,
            refl,
            refl,
          )
    ]

setup_opened-fails :
    (answers : SetupAnswers) (texts : Texts) (opened : Retval) (io : Io) (max_msgs max_msg_size : ℕ)
    → io.buffer ≡ none
    → is_ok opened && is_ok answers.shm_map ≡ false
    → (text : List ℕ) × (setup_opened answers texts opened io max_msgs max_msg_size
        ≡ some (put io text))
unfolding setup_opened
setup_opened-fails answers texts opened io max_msgs max_msg_size free fails =
    let not_opened = report-none io texts.open_failed free in
    let not_mapped = report-none io texts.map_failed free in
    elim (Bool-cases (is_ok opened)) [
      | inl e ↦ (texts.map_failed, ground (arith, not_mapped))
      | inr e ↦ (texts.open_failed, ground (arith, not_opened))
    ]

-- osal_io_shm_setup hides every error: where no osal_shm_open succeeds, or osal_shm_map does not,
-- `osal_io_shm_buffer` stays NULL where it was NULL, and OSAL_OK is returned all the same.
pub setup_failed_lem :
    (answers : SetupAnswers) (texts : Texts) (io : Io) (max_msgs max_msg_size : ℕ)
    → io.buffer ≡ none
    → ((attr size : ℕ) → is_ok (answers.shm_open attr size) && is_ok answers.shm_map ≡ false)
    → (io' : Io) × (io_shm_setup answers texts io max_msgs max_msg_size ≡ some (Retval.ok, io'))
      × (io'.buffer ≡ none)
unfolding io_shm_setup
setup_failed_lem answers texts io max_msgs max_msg_size free fails =
    let size = add64 handle_size (mul64 max_msg_size max_msgs) in
    let first = answers.shm_open shm_attr_msr size in
    let second = answers.shm_open (shm_attr_msr + flag_creat) size in
    let told = put io texts.missing in
    let (text, one) =
      setup_opened-fails answers texts first io max_msgs max_msg_size free (fails _ _) in
    let (text', two) =
      setup_opened-fails answers texts second told max_msgs max_msg_size free (fails _ _) in
    elim (Bool-cases (is_ok first)) [
      | inl e ↦ (put io text, ground (arith, one), free)
      | inr e ↦ (put told text', ground (arith, two, report-none io texts.missing free), free)
    ]
