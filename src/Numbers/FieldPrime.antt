-- ===== src/Numbers/FieldPrime.antt =====
-- The field's modulus is prime.
use ed301_eddsa.Base.{arith, refl, List, [], ◌∷◌}
use ed301_eddsa.Parameters.{field_modulus}
use ed301_eddsa.Numbers.Primes.{IsPrime}
use ed301_eddsa.Numbers.Divisors.{no_divisor, trial_division}
use ed301_eddsa.Numbers.Pocklington.{Certificate, pocklington}

IsPrime-3 : IsPrime 3
unfolding no_divisor
IsPrime-3 = trial_division 2 3 (omega arith) (omega arith) refl

IsPrime-401 : IsPrime 401
unfolding no_divisor
IsPrime-401 = trial_division 21 401 (omega arith) (omega arith) refl

IsPrime-757 : IsPrime 757
unfolding no_divisor
IsPrime-757 = trial_division 28 757 (omega arith) (omega arith) refl

IsPrime-2377 : IsPrime 2377
unfolding no_divisor
IsPrime-2377 = trial_division 49 2377 (omega arith) (omega arith) refl

IsPrime-5685857 : IsPrime 5685857
unfolding no_divisor
IsPrime-5685857 = trial_division 2385 5685857 (omega arith) (omega arith) refl

IsPrime-29854751 : IsPrime 29854751
unfolding no_divisor
IsPrime-29854751 = trial_division 5464 29854751 (omega arith) (omega arith) refl

IsPrime-191788873 : IsPrime 191788873
unfolding no_divisor
IsPrime-191788873 = trial_division 13849 191788873 (omega arith) (omega arith) refl

-- For 143661061813, from factors of 143661061812.
abbrev small_certificates : List Certificate
small_certificates =
    record { factor = 29854751; base = 2; inverse = 128864097768 }
    ∷ record { factor = 401; base = 2; inverse = 137986205328 }
    ∷ record { factor = 3; base = 2; inverse = 59906602738 }
    ∷ []

IsPrime-143661061813 : IsPrime 143661061813
IsPrime-143661061813 =
    pocklington 143661061813 38 (omega arith) (omega arith) small_certificates
      (IsPrime-29854751, refl, (IsPrime-401, refl, (IsPrime-3, refl, tt)))
      (omega arith, refl, omega arith, omega arith)

-- For the modulus, from factors of its predecessor.
abbrev certificates : List Certificate
certificates =
    record {
      factor = 143661061813;
      base = 2;
      inverse =
          704109578186304485673894588624794135833398339462104582359827597244594708162187362598344460;
    }
    ∷ record {
      factor = 191788873;
      base = 2;
      inverse =
          29990022772335912004875159800710191104956732053853580770876036718811230965217660450782402;
    }
    ∷ record {
      factor = 5685857;
      base = 2;
      inverse =
          2136005319012111728386730631856516163325707751697053973880321109072267800925551291876510808;
    }
    ∷ record {
      factor = 2377;
      base = 2;
      inverse =
          3912171551892467223102134927515619671470335972363082919808672068586113455662124836212398268;
    }
    ∷ record {
      factor = 757;
      base = 2;
      inverse =
          1647039523619806382569672744425336401500702180484991095355455066851701453965266705333013862;
    }
    ∷ []

pub field_modulus-IsPrime : IsPrime field_modulus
field_modulus-IsPrime =
    pocklington field_modulus 301 (omega arith) (omega arith) certificates
      (
        IsPrime-143661061813,
        refl,
        (
          IsPrime-191788873,
          refl,
          (IsPrime-5685857, refl, (IsPrime-2377, refl, (IsPrime-757, refl, tt))),
        ),
      )
      (omega arith, refl, omega arith, omega arith)
