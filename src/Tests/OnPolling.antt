-- ===== src/Tests/OnPolling.antt =====
-- The theorems on src/gpio_polling.c at concrete inputs.
use alarm4pi.Prelude.{ℕ, pos, List, [], ◌∷◌}
use alarm4pi.Gpio.{Gpio}
use alarm4pi.Gpio.Pins.{open_gpios}
use alarm4pi.Gpio.Configure.{configure_gpios}
use alarm4pi.Polling.{alarm_gpios, polling_thread}
use alarm4pi.Polling.Alternation.{AllAlternate}
use alarm4pi.Polling.Changes.{AllChanges, polling_thread-AllChanges}
use alarm4pi.Polling.Report.{Reported, polling_thread-Reported}
use alarm4pi.Tests.Bench.{bench, closed_gpio}

-- The pins as `init_polling` leaves them.
abbrev ready_gpio : Gpio bench
ready_gpio = (configure_gpios bench (open_gpios bench closed_gpio).1).1

abbrev two_rounds : List ℕ
two_rounds = 0 ∷ 0 ∷ 1 ∷ []

polling_thread-AllChanges_example :
    let (lasts, p) = (polling_thread bench two_rounds (pos 0) (pos 0) ready_gpio).1 in
    AllChanges p.events p.reads alarm_gpios lasts × AllAlternate p.events alarm_gpios lasts
polling_thread-AllChanges_example =
    polling_thread-AllChanges bench two_rounds (pos 0) (pos 0) ready_gpio

polling_thread-Reported_example :
    Reported (polling_thread bench two_rounds (pos 0) (pos 0) ready_gpio).1.1
polling_thread-Reported_example =
    polling_thread-Reported bench two_rounds (pos 0) (pos 0) ready_gpio
