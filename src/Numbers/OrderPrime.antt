-- ===== src/Numbers/OrderPrime.antt =====
-- The order of the prime subgroup is prime.
use ed301_eddsa.Base.{arith, refl, List, [], ◌∷◌}
use ed301_eddsa.Parameters.{scalar_modulus}
use ed301_eddsa.Numbers.Primes.{IsPrime}
use ed301_eddsa.Numbers.Divisors.{no_divisor, trial_division}
use ed301_eddsa.Numbers.Pocklington.{Certificate, pocklington}

IsPrime-2 : IsPrime 2
unfolding no_divisor
IsPrime-2 = trial_division 2 2 (omega arith) (omega arith) refl

IsPrime-5 : IsPrime 5
unfolding no_divisor
IsPrime-5 = trial_division 3 5 (omega arith) (omega arith) refl

IsPrime-83 : IsPrime 83
unfolding no_divisor
IsPrime-83 = trial_division 10 83 (omega arith) (omega arith) refl

IsPrime-103 : IsPrime 103
unfolding no_divisor
IsPrime-103 = trial_division 11 103 (omega arith) (omega arith) refl

IsPrime-151 : IsPrime 151
unfolding no_divisor
IsPrime-151 = trial_division 13 151 (omega arith) (omega arith) refl

IsPrime-487 : IsPrime 487
unfolding no_divisor
IsPrime-487 = trial_division 23 487 (omega arith) (omega arith) refl

IsPrime-218047 : IsPrime 218047
unfolding no_divisor
IsPrime-218047 = trial_division 467 218047 (omega arith) (omega arith) refl

-- For 8071538763312550939901261, from factors of its predecessor.
abbrev small_certificates : List Certificate
small_certificates =
    record { factor = 218047; base = 2; inverse = 736198900542024275021385 }
    ∷ record { factor = 151; base = 2; inverse = 1006396005606962910457257 }
    ∷ record { factor = 5; base = 2; inverse = 2585604809438547936325851 }
    ∷ record { factor = 2; base = 2; inverse = 4035769381656275469950630 }
    ∷ []

IsPrime-8071538763312550939901261 : IsPrime 8071538763312550939901261
IsPrime-8071538763312550939901261 =
    pocklington 8071538763312550939901261 83 (omega arith) (omega arith) small_certificates
      (IsPrime-218047, refl, (IsPrime-151, refl, (IsPrime-5, refl, (IsPrime-2, refl, tt))))
      (omega arith, refl, omega arith, omega arith)

-- For the order, from factors of its predecessor.
abbrev certificates : List Certificate
certificates =
    record {
      factor = 8071538763312550939901261;
      base = 2;
      inverse =
          999896300053970104407451537332691527479524301128197920826669475912884423246171698652841151;
    }
    ∷ record {
      factor = 487;
      base = 2;
      inverse =
          963208843587897247898469741297795354912448627481956628150313497550614313379264296202472449;
    }
    ∷ record {
      factor = 103;
      base = 2;
      inverse =
          687757039255400229450200395994988780905515153194779830041633693219300069092516550941154291;
    }
    ∷ record {
      factor = 83;
      base = 2;
      inverse =
          7439757865293791194531191353587680587823833497637488987402093363109559358629049933553746;
    }
    ∷ []

pub scalar_modulus-IsPrime : IsPrime scalar_modulus
scalar_modulus-IsPrime =
    pocklington scalar_modulus 300 (omega arith) (omega arith) certificates
      (
        IsPrime-8071538763312550939901261,
        refl,
        (IsPrime-487, refl, (IsPrime-103, refl, (IsPrime-83, refl, tt))),
      )
      (omega arith, refl, omega arith, omega arith)
