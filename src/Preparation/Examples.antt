-- ===== src/Preparation/Examples.antt =====
-- A first message, and one more before it is answered.
use auto_reign.Prelude.{◌≡◌, refl, true, none, some, List, [], codes, ok, is_space}
use auto_reign.Tasks.{Subtask, create_task, create_turn, max_message_id, list_subtasks}
use auto_reign.Contexts.{SubtaskContext, bind_drafts, list_runtime_for_subtasks}
use auto_reign.Cancellation.{new_registry}
use auto_reign.History.{
  runtime_turns, contexts_by_subtask, turns_of, project_assistant, answers_from, with_answers,
}
use auto_reign.TaskExecution.{takes_effect}
use auto_reign.Preparation.Service.{Services, Service, Moment, Prepared, prepare_runtime, committed}
use auto_reign.Preparation.Send.{
  ChatSendRequest, task_title, stored, bound_contexts, new_target, target, with_runtime, send_turn,
  send_session, prepare_send,
}
use auto_reign.Preparation.Retry.{prepare_retry}
use auto_reign.Preparation.Stages.{Refused}
use auto_reign.Preparation.Again.{prepare_send-one_generation}

abbrev services : Services
services = record {
  resolve_agent = λ user_id agent_id. ok agent_id;
  resolve_model = λ agent override. ok (codes "p", codes "m");
  read_override = λ override. ok override;
  prepare_turn = λ user_id agent model turns. ok tt;
  base64 = λ s. true;
  loads = λ s. none;
}

abbrev no_messages : List Subtask
no_messages = []

abbrev no_contexts : List SubtaskContext
no_contexts = []

abbrev service : Service
service = record {
  data_ = record { db = record { tasks = []; subtasks = no_messages }; contexts = no_contexts };
  registry = new_registry;
}

abbrev moment : Moment
moment = record {
  task_id = 7;
  user_row_id = 1;
  assistant_row_id = 2;
  now = 100;
  outcome = takes_effect;
}

abbrev request : ChatSendRequest
request = record {
  task_id = none;
  agent_id = none;
  model_override = none;
  message = codes " Hello  there ";
  context_ids = [];
}

abbrev again : ChatSendRequest
again = record request { task_id = some 7 }

abbrev sent : Service
sent = (prepare_send services moment 3 request service).1

abbrev prepared : Prepared
prepared = record {
  execution = record {
    user_id = 3;
    task_id = 7;
    assistant_subtask_id = 2;
    provider = codes "p";
    model = codes "m";
  };
  user_subtask_id = some 1;
  user_message_id = some 1;
}

title_ok : task_title (codes " Hello  there ") ≡ codes "Hello there"
unfolding task_title is_space
title_ok = refl

sent_ok : prepare_send services moment 3 request service ≡ (ok prepared, sent)
unfolding prepare_send send_session target new_target create_task stored send_turn create_turn
    max_message_id bound_contexts bind_drafts with_runtime prepare_runtime committed runtime_turns
    list_subtasks contexts_by_subtask list_runtime_for_subtasks turns_of project_assistant
    answers_from with_answers
sent_ok = refl

prepare_send-one_generation_example :
    Refused sent (prepare_send services moment 3 again sent)
    × Refused sent (prepare_retry services moment 3 7 2 sent)
prepare_send-one_generation_example =
    prepare_send-one_generation services moment moment 3 3 2 request again service sent prepared
      sent_ok refl
