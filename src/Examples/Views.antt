-- ===== src/Examples/Views.antt =====
-- Places in queues: the shop's, and one that recovery restores.
use team_10_queue_serivce.Base.{ℕ, ◌≡◌, refl, List, [], ◌∷◌, length}
use team_10_queue_serivce.Redis.Scripts.{restore_product_state_script}
use team_10_queue_serivce.Redis.Fifo.{IsFair}
use team_10_queue_serivce.Redis.Restored.{numbered, restore_product_state_script-numbered}
use team_10_queue_serivce.Examples.Shop.{shop_cache}

abbrev users : List ℕ
users = 9 ∷ 8 ∷ 4 ∷ []

restore_product_state_script-numbered_example :
    let c = restore_product_state_script 7 5 2 users shop_cache in
    (c.queues 7 ≡ numbered 1 users) × (c.seqs 7 ≡ length users) × IsFair 7 c
restore_product_state_script-numbered_example =
    restore_product_state_script-numbered 7 5 2 users shop_cache refl
