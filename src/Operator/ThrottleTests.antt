-- ===== src/Operator/ThrottleTests.antt =====
-- The turns of the operator on the small cluster, with a directory whose connections and waits are counted.
use directory_rbac_operator.Base.{ℕ, suc, String, refl, none, some, List, [], ◌∷◌}
use directory_rbac_operator.Go.Action.{ok}
use directory_rbac_operator.Go.Sort.{insertion}
use directory_rbac_operator.Ldapclient.Library.{Library}
use directory_rbac_operator.Ldapclient.Frame.{AllCallsKeep}
use directory_rbac_operator.Ldapclient.Meter.{one_dial, one_wait, Spends}
use directory_rbac_operator.Ldapclient.Throttle.{Metered}
use directory_rbac_operator.Ldapclient.Limiters.{lookup, entries_of}
use directory_rbac_operator.Controller.Sample.{World, ApiError, no_limiters}
use directory_rbac_operator.Controller.Sample.Laws.{same, found-keeps}
use directory_rbac_operator.Controller.Provider.Tests.{finalizers}
use directory_rbac_operator.Controller.Factory.Tests.{lib, certs, pinned, cluster}
use directory_rbac_operator.Operator.Tests.{rates, mgr, shares}
use directory_rbac_operator.Operator.Throttle.{
  Turn, resolves, checks, elsewhere, take_turns, Concern, Unmetered, take_turns-Spends,
}

abbrev counting : Library World ApiError (Unit {0}) String ℕ String
counting = record lib {
  dial_url = λ url t w. (ok tt, record w { meter = one_dial w.meter });
  wait = λ l w.
      (ok tt, record w { meter = record { dials = w.meter.dials; grants = suc w.meter.grants } });
}

metered : (limiter : ℕ) → Metered counting limiter (λ w. w.meter)
unfolding one_wait
metered limiter = record {
  dial_url-counts = λ url t w. refl;
  wait-counts = λ w. refl;
  start_tls-Keeps = λ c t. same _ _ (λ w. refl);
  bind-Keeps = λ c dn password. same _ _ (λ w. refl);
  close-keeps = λ c w. refl;
  queries = record {
    set_timeout-keeps = λ c d w. refl;
    search-Keeps = λ c r. same _ _ (λ w. refl);
    search_with_paging-Keeps = λ c r n. same _ _ (λ w. refl);
    time_left-keeps = λ w. refl;
  };
}

unmetered : Unmetered mgr (λ w. w.meter)
unmetered = record {
  get_secret-Keeps = λ key. same _ _ (λ w. found-keeps (λ w'. w'.meter) (w.secrets key) w);
  set_limiters-keeps = λ l w. refl;
}

apart : AllCallsKeep counting (λ w. w.limiters)
apart = record {
  dialling = record {
    dial_url-Keeps = λ url t. same _ _ (λ w. refl);
    close-keeps = λ c w. refl;
    calls = record {
      start_tls-Keeps = λ c t. same _ _ (λ w. refl);
      wait-Keeps = λ l. same _ _ (λ w. refl);
      queries = record {
        set_timeout-keeps = λ c d w. refl;
        search-Keeps = λ c r. same _ _ (λ w. refl);
        search_with_paging-Keeps = λ c r n. same _ _ (λ w. refl);
        time_left-keeps = λ w. refl;
      };
    };
  };
  bind-Keeps = λ c dn password. same _ _ (λ w. refl);
}

abbrev start : World
start = record cluster { limiters = record no_limiters { limiters = some (("corp-ad", 3) ∷ []) } }

-- Two groups, and a health check after the provider's secrets are gone.
abbrev turns : List (Turn World)
turns =
    resolves pinned "cn=team"
    ∷ resolves pinned "cn=admins"
    ∷ elsewhere (λ w. record w { secrets = λ key. none })
    ∷ checks pinned
    ∷ []

take_turns-Spends_example :
    Spends
      (λ w. w.meter)
      4
      start
      (take_turns counting certs rates insertion finalizers mgr turns start)
unfolding lookup entries_of Concern
take_turns-Spends_example =
    take_turns-Spends counting certs rates insertion finalizers mgr shares 3 (λ w. w.meter)
      (metered 3) unmetered apart "corp-ad" turns start refl
      (refl, (refl, ((λ w. (refl, λ l h. h)), (refl, tt))))
