-- ===== src/Examples/Queues.antt =====
-- The theorems on queues, timers, rounds and validation, applied to the shop.
use team_10_queue_serivce.Base.{
  ◌+◌, ◌≡◌, ◌≢◌, refl, [], ◌∷◌, ◌++◌, some, arith, false, true, List, update,
}
use team_10_queue_serivce.Base.Int.{pos}
use team_10_queue_serivce.Models.Status.{right_active}
use team_10_queue_serivce.Models.Result.{ok}
use team_10_queue_serivce.World.{call, time_now}
use team_10_queue_serivce.Redis.State.{Cache}
use team_10_queue_serivce.Redis.Scripts.{
  Popped, gets, enqueue_script, requeue_script, remove_from_queue_script,
  restore_available_units_script, pop_and_allocate_script,
}
use team_10_queue_serivce.Redis.Repo.{get_right}
use team_10_queue_serivce.Redis.Order.{is_absent}
use team_10_queue_serivce.Redis.Fifo.{IsFair}
use team_10_queue_serivce.Redis.Fifo.Pop.{Pops, available, count, pop_and_allocate_script-Pops}
use team_10_queue_serivce.Redis.Fifo.Undo.{requeue_script-pop}
use team_10_queue_serivce.Redis.Fifo.Steps.{
  QueueSteps, entering, popping, going_back, start, later, QueueSteps-last,
}
use team_10_queue_serivce.Redis.TimersKept.{
  is_timed, TimerStep, claiming, returning, taking_back, timer_steps, timer_steps-kept,
}
use team_10_queue_serivce.Service.Advance.{advance_loop}
use team_10_queue_serivce.Service.Payment.{validate_right, get_active_right, fetch_right}
use team_10_queue_serivce.Rounds.{advance_loop-ends}
use team_10_queue_serivce.Validation.{IsLive, validate_right-IsLive}
use team_10_queue_serivce.Examples.Shop.{service, shop_cache, shop, right_of_5, timer_of_6}

-- Two units have come free.
abbrev free_cache : Cache
free_cache = record shop_cache {
  stocks =
      update shop_cache.stocks 7 (some (record { product_count = pos 3; available_units = 2 }));
}

abbrev after_pop : Cache
after_pop = (pop_and_allocate_script 7 free_cache).1

abbrev reply_8 : Popped
reply_8 = gets 8 1 1 0 right_active

free_cache-IsFair : IsFair 7 free_cache
free_cache-IsFair = record { in_order = refl; counted = refl }

popped_8 : pop_and_allocate_script 7 free_cache ≡ (some reply_8, after_pop)
unfolding pop_and_allocate_script remove_from_queue_script
popped_8 = refl

requeue_script-pop_example :
    let back = requeue_script 7 8 1 (restore_available_units_script 7 (1 + 0) after_pop) in
    (back.queues 7 ≡ free_cache.queues 7)
    × (available 7 back ≡ available 7 free_cache)
    × (count 7 back ≡ count 7 free_cache)
requeue_script-pop_example =
    requeue_script-pop 7 free_cache after_pop reply_8 free_cache-IsFair popped_8 refl

-- User 8 is popped, user 9 enters, and user 8 goes back to the head.
abbrev busy_cache : Cache
busy_cache = requeue_script 7 8 1 (enqueue_script 7 9 after_pop)

busy_steps : QueueSteps 7 free_cache busy_cache
unfolding enqueue_script pop_and_allocate_script remove_from_queue_script
busy_steps = later (later (later start popping) (entering 9)) (going_back 8 1 (omega arith))

new_10 : is_absent 10 (busy_cache.queues 7) ≡ true
unfolding requeue_script enqueue_script pop_and_allocate_script remove_from_queue_script
new_10 = refl

QueueSteps-last_example :
    IsFair 7 busy_cache
    × ((enqueue_script 7 10 busy_cache).queues 7
        ≡ busy_cache.queues 7 ++ (busy_cache.seqs 7 + 1, 10) ∷ [])
QueueSteps-last_example =
    QueueSteps-last 7 10 free_cache busy_cache free_cache-IsFair busy_steps new_10

pop_and_allocate_script-Pops_example :
    (r : Popped) × (((pop_and_allocate_script 7 free_cache).0 ≡ some r)
      × Pops 7 1 8 [] free_cache r (pop_and_allocate_script 7 free_cache).1)
pop_and_allocate_script-Pops_example = pop_and_allocate_script-Pops 7 8 1 free_cache [] refl

-- The offer of user 6 runs out at 80 s.
abbrev timed_cache : Cache
timed_cache = record shop_cache { scheduled = (80, (7, 6)) ∷ [] }

-- One worker claims, returns a claim and stops; another takes back what it held.
abbrev worker_steps : List TimerStep
worker_steps =
    claiming 90 120_000 100
    ∷ returning 91 (timer_of_6 ∷ [])
    ∷ claiming 92 122_000 1
    ∷ taking_back 130_000 130
    ∷ []

timer_steps-kept_example : is_timed 7 6 (timer_steps worker_steps timed_cache) ≡ true
timer_steps-kept_example = timer_steps-kept 7 6 worker_steps timed_cache refl

advance_loop-ends_example : (advance_loop 5 service 7 shop).0 ≢ ok false
advance_loop-ends_example = advance_loop-ends 7 service 5 shop (omega arith)

shown_5 : validate_right 100 5 shop ≡ (ok right_of_5, shop)
unfolding validate_right get_active_right fetch_right get_right call time_now
shown_5 = refl

validate_right-IsLive_example : IsLive right_of_5 shop × (right_of_5.user_id ≡ 5)
validate_right-IsLive_example = validate_right-IsLive 100 shop shop right_of_5 5 shown_5
