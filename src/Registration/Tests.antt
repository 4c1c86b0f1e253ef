-- ===== src/Registration/Tests.antt =====
-- The theorems on src/registration.c at a registered query.
use psw_afdx.Base.{ℕ, ◌≡◌, refl, true, some}
use psw_afdx.Registration.{Registry, has_app, register_query, unregister_query}
use psw_afdx.Registration.Kept.{IsConsistent, unregister_query_lem}
use psw_afdx.Registration.RoundTrip.{register_query-unregister_query}
use psw_afdx.Registration.Counting.{
  Counter, add_task, counting, altitude, one_query, one_query-IsConsistent,
}

unregister_query_lem_example :
    (r' : Registry Counter) × (unregister_query counting one_query 4 5 ≡ some r')
    × IsConsistent counting r'
    × ((k : ℕ) → has_app r'.apps k ≡ has_app one_query.apps k)
unregister_query_lem_example = unregister_query_lem counting one_query 4 5 one_query-IsConsistent

register_query-unregister_query_example :
    (r' : Registry Counter) × (r'' : Registry Counter) × (register_query counting one_query 4
        altitude 50 true
        (some 2000)
      ≡ some r')
    × (unregister_query counting r' 4 5 ≡ some r'')
    × (r''.apps ≡ one_query.apps)
    × ((k : ℕ) → r''.sched.tasks k ≡ one_query.sched.tasks k)
register_query-unregister_query_example =
    register_query-unregister_query counting one_query (add_task one_query.sched 2000) 4 50 2000 1
      altitude true one_query-IsConsistent refl refl
