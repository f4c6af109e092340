-- ===== src/Device/Inbound/Sequence.antt =====
-- The numbers of the snapshots that go to the bus.
use py_mammotion.Base.{
  maybe, ℕ, suc, ◌+◌, ◌≤◌, ◌≡◌, refl, Bool, true, false, not, Option, none, some, List, [], ◌∷◌,
  ◌++◌, ◌==◌, nat_keys, eqb_iff, if◌then◌else◌, leb, arith,
}
use py_mammotion.Device.Sending.{TransportType, TransportAvailability, updated}
use py_mammotion.Device.Inbound.{
  DeviceModel, DeviceSnapshot, Task, emit_state, restart_keep_alive, Inbox, applied, emit_if,
  run_all, run_tasks, schedule_state, keep_alive_if, publish, update_availability, flag_offline,
  stamped, clear_flag, suspended_if, count_map_update, shut_down, reduced, received, on_raw_message,
  request_if, settle_flag, on_status_message, clear_cloud_flag, on_properties, restore_device,
  restore, Input, raw_message, status_message, properties, availability, restored, tasks_run, step,
  run,
}

module _ {D : Type 0} where
  -- How often snapshot `n` is among them.
  unfoldable pub times : ℕ → List (DeviceSnapshot D) → ℕ
  times n [] = 0
  times n (s ∷ l) = if s.sequence == n then suc (times n l) else times n l

  unfoldable pub times_scheduled : ℕ → List (Task D) → ℕ
  times_scheduled n [] = 0
  times_scheduled n (emit_state s ∷ l) =
      if s.sequence == n then suc (times_scheduled n l) else times_scheduled n l
  times_scheduled n (restart_keep_alive ∷ l) = times_scheduled n l

  unfoldable pub published : ℕ → Inbox D → ℕ
  unfolding times times_scheduled
  published n x = times n x.emitted + times_scheduled n x.tasks

  -- No snapshot is published twice, and none is numbered above the machine's counter.
  abbrev pub IsNumbered : Inbox D → Type 0
  IsNumbered x = (n : ℕ) → published n x ≤ (if leb n x.machine.sequence then 1 else 0)

  times_scheduled-append :
      (n : ℕ) (l r : List (Task D))
      → times_scheduled n (l ++ r) ≡ times_scheduled n l + times_scheduled n r
  unfolding times_scheduled
  times_scheduled-append n [] r = omega arith
  times_scheduled-append n (emit_state s ∷ l) r = ground (arith, times_scheduled-append n l r)
  times_scheduled-append n (restart_keep_alive ∷ l) r = times_scheduled-append n l r

  run_all-published :
      (n : ℕ) (l : List (Task D)) (x : Inbox D)
      → times n (run_all l x).emitted + times_scheduled n (run_all l x).tasks
        ≡ times n x.emitted + times_scheduled n x.tasks + times_scheduled n l
  unfolding run_all times times_scheduled
  run_all-published n [] x = omega arith
  run_all-published n (emit_state s ∷ l) x =
      ground (arith, run_all-published n l (record x { emitted = s ∷ x.emitted }))
  run_all-published n (restart_keep_alive ∷ l) x =
      run_all-published n l (record x { restarts = x.restarts + 1 })

  run_all-sequence :
      (l : List (Task D)) (x : Inbox D) → (run_all l x).machine.sequence ≡ x.machine.sequence
  unfolding run_all
  run_all-sequence [] x = refl
  run_all-sequence (emit_state s ∷ l) x = run_all-sequence l _
  run_all-sequence (restart_keep_alive ∷ l) x = run_all-sequence l _

  run_tasks-IsNumbered : (x : Inbox D) → IsNumbered x → IsNumbered (run_tasks x)
  unfolding run_tasks published times_scheduled
  run_tasks-IsNumbered x w n =
      let y : Inbox D = record x { tasks = [] } in
      ground (arith, run_all-published n x.tasks y, run_all-sequence x.tasks y, w n)

  keep_alive_if-IsNumbered :
      (b : Bool) (x : Inbox D) → IsNumbered x → IsNumbered (keep_alive_if b x)
  unfolding keep_alive_if published times_scheduled
  keep_alive_if-IsNumbered true x w n =
      ground (arith, times_scheduled-append n x.tasks (restart_keep_alive ∷ []), w n)
  keep_alive_if-IsNumbered false x w n = w n

  suspended_if-IsNumbered : (b : Bool) (x : Inbox D) → IsNumbered x → IsNumbered (suspended_if b x)
  unfolding suspended_if
  suspended_if-IsNumbered true x w = run_tasks-IsNumbered x w
  suspended_if-IsNumbered false x w = w

  if-IsNumbered :
      (b : Bool) (x y : Inbox D) → IsNumbered x → IsNumbered y → IsNumbered (if b then x else y)
  if-IsNumbered true x y w v = w
  if-IsNumbered false x y w v = v

module _ {D M : Type 0} (model : DeviceModel D M) where
  -- The snapshot of a device that is applied is new, so it may go to the bus or to a task.
  emit_if-IsNumbered :
      (b : Bool) (d : D) (x : Inbox D) → IsNumbered x → IsNumbered (emit_if b (applied model d x))
  unfolding emit_if applied published times
  emit_if-IsNumbered true d x w n = ground (arith, w n, eqb_iff (x.machine.sequence + 1) n)
  emit_if-IsNumbered false d x w n = ground (arith, w n)

  schedule-IsNumbered :
      (d : D) (x : Inbox D) → IsNumbered x → IsNumbered (schedule_state (applied model d x))
  unfolding schedule_state applied published times_scheduled
  schedule-IsNumbered d x w n = ground (
    arith,
    w n,
    eqb_iff (x.machine.sequence + 1) n,
    times_scheduled-append n x.tasks (emit_state (applied model d x).machine.current ∷ []),
  )

  update_availability-IsNumbered :
      (t : TransportType) (v : TransportAvailability) (flag : Option Bool) (x : Inbox D)
      → IsNumbered x
      → IsNumbered (update_availability model t v flag x)
  unfolding update_availability publish published
  update_availability-IsNumbered t v flag x w =
      if-IsNumbered _ _ _
        (keep_alive_if-IsNumbered _ _ (
          schedule-IsNumbered x.machine.current.raw
            (record x { availability = updated t v flag x.availability }) w))
        w

  flag_offline-IsNumbered :
      (b : Bool) (x : Inbox D) → IsNumbered x → IsNumbered (flag_offline model b x)
  unfolding flag_offline maybe
  flag_offline-IsNumbered b x w = go x.cloud_transport
    where
      go :
          (o : Option TransportType)
          → IsNumbered (maybe o x (λ t. update_availability model t x.availability.mqtt (some b) x))
      go none = w
      go (some t) = update_availability-IsNumbered t x.availability.mqtt (some b) x w

  clear_flag-IsNumbered :
      (t : TransportType) (x : Inbox D) → IsNumbered x → IsNumbered (clear_flag model t x)
  unfolding clear_flag
  clear_flag-IsNumbered t x w =
      if-IsNumbered _ _ x (update_availability-IsNumbered t x.availability.mqtt (some false) x w) w

  received-IsNumbered :
      (now : ℕ) (t : TransportType) (b : Bool) (msg : M) (x : Inbox D)
      → IsNumbered x
      → IsNumbered (received model now t b msg x)
  unfolding received stamped published
  received-IsNumbered now t b msg x w =
      suspended_if-IsNumbered b (clear_flag model t (stamped model now msg x))
        (clear_flag-IsNumbered t (stamped model now msg x) w)

  count_map_update-IsNumbered :
      (b : Bool) (x : Inbox D) → IsNumbered x → IsNumbered (count_map_update b x)
  unfolding count_map_update published
  count_map_update-IsNumbered true x w = w
  count_map_update-IsNumbered false x w = w

  shut_down-IsNumbered :
      (t : TransportType) (o : Option ℕ) (x : Inbox D)
      → IsNumbered x
      → IsNumbered (shut_down model t o x)
  unfolding shut_down published
  shut_down-IsNumbered t none x w = w
  shut_down-IsNumbered t (some k) x w =
      update_availability-IsNumbered t x.availability.mqtt (some true) x w

  reduced-IsNumbered :
      (t : TransportType) (msg : M) (o : Option D) (x : Inbox D)
      → IsNumbered x
      → IsNumbered (reduced model t msg o x)
  unfolding reduced
  reduced-IsNumbered t msg none x w = w
  reduced-IsNumbered t msg (some d) x w =
      shut_down-IsNumbered t (model.powers_off msg) _
        (count_map_update-IsNumbered (model.names_areas msg) _ (emit_if-IsNumbered _ d x w))

  request_if-IsNumbered : (b : Bool) (x : Inbox D) → IsNumbered x → IsNumbered (request_if b x)
  unfolding request_if published
  request_if-IsNumbered true x w = w
  request_if-IsNumbered false x w = w

  on_status_message-IsNumbered :
      (now : ℕ) (online : Bool) (change : D → D) (x : Inbox D)
      → IsNumbered x
      → IsNumbered (on_status_message model now online change x)
  unfolding on_status_message settle_flag
  on_status_message-IsNumbered now online change x w =
      let r =
        request_if-IsNumbered _ _
          (emit_if-IsNumbered (not x.stopping) (change x.machine.current.raw) x w) in
      if-IsNumbered _ _ _ r (flag_offline-IsNumbered (not online) _ r)

  on_properties-IsNumbered :
      (change : D → D) (x : Inbox D) → IsNumbered x → IsNumbered (on_properties model change x)
  unfolding on_properties clear_cloud_flag
  on_properties-IsNumbered change x w =
      let y = clear_cloud_flag model x in
      emit_if-IsNumbered (not x.stopping) (change y.machine.current.raw) y (
        if-IsNumbered x.availability.mqtt_reported_offline (flag_offline model false x) x
          (flag_offline-IsNumbered false x w) w)

  step-IsNumbered : (i : Input D M) (x : Inbox D) → IsNumbered x → IsNumbered (step model i x)
  unfolding step restore_device restore published on_raw_message
  step-IsNumbered (raw_message now t b none) x w = w
  step-IsNumbered (raw_message now t b (some msg)) x w =
      reduced-IsNumbered t msg (model.reduce (received model now t b msg x).machine.current.raw msg)
        (received model now t b msg x) (received-IsNumbered now t b msg x w)
  step-IsNumbered (status_message now online change) x w =
      on_status_message-IsNumbered now online change x w
  step-IsNumbered (properties change) x w = on_properties-IsNumbered change x w
  step-IsNumbered (availability t v) x w = update_availability-IsNumbered t v none x w
  step-IsNumbered (restored device) x w = w
  step-IsNumbered tasks_run x w = run_tasks-IsNumbered x w

  -- If no snapshot has been published twice, and none that is published is numbered above the
  -- counter of the state machine, then this holds after any sequence of frames, status messages,
  -- properties, changes of a transport, restores and runs of the tasks; published are the snapshots
  -- that went to the bus and those that wait in a task.
  pub run-IsNumbered :
      (is : List (Input D M)) (x : Inbox D) → IsNumbered x → IsNumbered (run model is x)
  unfolding run
  run-IsNumbered [] x w = w
  run-IsNumbered (i ∷ is) x w = run-IsNumbered is (step model i x) (step-IsNumbered i x w)
